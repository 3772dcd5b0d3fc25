-- ===== src/Lockout/Script.antt =====
-- The script (utils/lockout.lua) on a key that is not locked.
use bukia_hft.Base.{
  ◌≡◌, ◌≢◌, refl, ap, ◌∙◌, ℕ, suc, ◌<◌, ◌==◌, leb, String, true, false, arith, if◌then◌else◌,
}
use bukia_hft.Base.Int.{pos, ltb_ℤ}
use bukia_hft.Redis.{Redis}
use bukia_hft.Redis.Laws.{RedisLaws, absent}
use bukia_hft.Lockout.{run_lua_script}

module _ (r : Redis) (laws : RedisLaws r) (fail_key lock_key : String)
    (threshold window lock_seconds : ℕ) (apart : lock_key ≢ fail_key) (has_window : 0 < window)
    (has_lock : 0 < lock_seconds) where
  open laws use {
    counter, incr_value, counter-incr, counter-expire, ttl-incr_other, ttl-expire_other, ttl-set,
    set_nx_absent,
  }

  abbrev counted : r.Store → r.Store
  counted s =
      let (fails, s1) = r.incr fail_key s in if fails == 1 then r.expire fail_key window s1 else s1

  counter-counted : (s : r.Store) → counter fail_key (counted s) ≡ suc (counter fail_key s)
  counter-counted s = ground (
    arith,
    counter-incr fail_key s,
    counter-expire fail_key window (r.incr fail_key s).1 has_window,
  )

  ttl-counted : (s : r.Store) → r.ttl lock_key (counted s) ≡ r.ttl lock_key s
  ttl-counted s = ground (
    arith,
    ttl-incr_other lock_key fail_key s apart,
    ttl-expire_other lock_key fail_key window (r.incr fail_key s).1 apart,
  )

  -- At the threshold the lock is set.
  pub script_locks :
      (s : r.Store)
      → r.ttl lock_key s ≡ absent
      → leb threshold (suc (counter fail_key s)) ≡ true
      → (s' : r.Store) × (run_lua_script r fail_key lock_key threshold window lock_seconds s
          ≡ ((2, pos lock_seconds), s'))
        × (r.ttl lock_key s' ≡ pos lock_seconds)
  unfolding run_lua_script
  script_locks s free full =
      let set = set_nx_absent lock_key "1" lock_seconds (counted s) (ttl-counted s ∙ free) in
      let value = incr_value fail_key s in
      let reached : leb threshold (r.incr fail_key s).0 ≡ true = rw value full in
      (
        r.set lock_key "1" lock_seconds (counted s),
        rw (free, reached, set) refl,
        ttl-set lock_key "1" lock_seconds (counted s) has_lock,
      )

  -- Below it the failure is counted.
  pub script_counts :
      (s : r.Store)
      → r.ttl lock_key s ≡ absent
      → leb threshold (suc (counter fail_key s)) ≡ false
      → (s' : r.Store) × (run_lua_script r fail_key lock_key threshold window lock_seconds s
          ≡ ((0, pos (suc (counter fail_key s))), s'))
        × (r.ttl lock_key s' ≡ absent)
        × (counter fail_key s' ≡ suc (counter fail_key s))
  unfolding run_lua_script
  script_counts s free below =
      let value = incr_value fail_key s in
      let under : leb threshold (r.incr fail_key s).0 ≡ false = rw value below in
      (
        counted s,
        rw (free, under) (ap (λ (n : ℕ). ((0, pos n), counted s)) value),
        ttl-counted s ∙ free,
        counter-counted s,
      )

  -- A lock that is set stays as it is.
  pub script_stays :
      (s : r.Store)
      → ltb_ℤ (pos 0) (r.ttl lock_key s) ≡ true
      → run_lua_script r fail_key lock_key threshold window lock_seconds s
        ≡ ((1, r.ttl lock_key s), s)
  unfolding run_lua_script
  script_stays s set = rw set refl
