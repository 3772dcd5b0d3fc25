-- ===== src/Redis/Laws.antt =====
-- What the documentation of Redis says of the commands, as far as the service relies on it.
use bukia_hft.Base.{◌≡◌, ◌≢◌, ℕ, suc, ◌<◌, ◌≤◌, String, none, some}
use bukia_hft.Base.Int.{ℤ, pos, negsuc, ◌<ℤ◌}
use bukia_hft.Redis.{Redis}

-- TTL's answer for a key that is not there.
abbrev pub absent : ℤ
absent = negsuc 1

pub record RedisLaws (r : Redis) : Type 0 where
  -- the number that INCR counts up from
  pub counter : String → r.Store → ℕ
  pub incr_value : (k : String) (s : r.Store) → (r.incr k s).0 ≡ suc (counter k s)
  pub counter-incr : (k : String) (s : r.Store) → counter k (r.incr k s).1 ≡ suc (counter k s)
  pub counter-wait :
      (k : String) (n t : ℕ) (s : r.Store) → r.ttl k s ≡ pos t → t ≤ n → counter k (r.wait n s) ≡ 0
  pub counter-wait_zero :
      (k : String) (n : ℕ) (s : r.Store) → counter k s ≡ 0 → counter k (r.wait n s) ≡ 0
  pub counter-expire :
      (k : String) (n : ℕ) (s : r.Store) → 0 < n → counter k (r.expire k n s) ≡ counter k s
  pub counter-del : (k : String) (s : r.Store) → counter k (r.del k s) ≡ 0
  pub counter-del_other : (j k : String) (s : r.Store) → j ≢ k → counter j (r.del k s) ≡ counter j s
  pub counter-set_other :
      (j k v : String) (n : ℕ) (s : r.Store) → j ≢ k → counter j (r.set k v n s) ≡ counter j s
  -- INCR and EXPIRE on a key that is there
  pub ttl-incr : (k : String) (s : r.Store) → 0 < counter k s → r.ttl k (r.incr k s).1 ≡ r.ttl k s
  pub ttl-expire :
      (k : String) (n : ℕ) (s : r.Store)
      → 0 < n
      → 0 < counter k s
      → r.ttl k (r.expire k n s) ≡ pos n
  pub ttl-incr_other : (j k : String) (s : r.Store) → j ≢ k → r.ttl j (r.incr k s).1 ≡ r.ttl j s
  pub ttl-expire_other :
      (j k : String) (n : ℕ) (s : r.Store) → j ≢ k → r.ttl j (r.expire k n s) ≡ r.ttl j s
  pub ttl-del_other : (j k : String) (s : r.Store) → j ≢ k → r.ttl j (r.del k s) ≡ r.ttl j s
  pub ttl-del : (k : String) (s : r.Store) → r.ttl k (r.del k s) ≡ absent
  pub ttl-set : (k v : String) (n : ℕ) (s : r.Store) → 0 < n → r.ttl k (r.set k v n s) ≡ pos n
  pub ttl-wait :
      (k : String) (n t : ℕ) (s : r.Store)
      → r.ttl k s ≡ pos t
      → t ≤ n
      → r.ttl k (r.wait n s) ≡ absent
  pub set_nx_absent :
      (k v : String) (n : ℕ) (s : r.Store)
      → r.ttl k s ≡ absent
      → r.set_nx k v n s ≡ some (r.set k v n s)
  pub set_nx_present :
      (k v : String) (n : ℕ) (s : r.Store) → pos 0 <ℤ r.ttl k s → r.set_nx k v n s ≡ none
  pub get-set : (k v : String) (n : ℕ) (s : r.Store) → 0 < n → r.get k (r.set k v n s) ≡ some v
  pub get-set_other :
      (j k v : String) (n : ℕ) (s : r.Store) → j ≢ k → r.get j (r.set k v n s) ≡ r.get j s
  pub get-del : (k : String) (s : r.Store) → r.get k (r.del k s) ≡ none
  pub get-del_other : (j k : String) (s : r.Store) → j ≢ k → r.get j (r.del k s) ≡ r.get j s
