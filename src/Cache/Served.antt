-- ===== src/Cache/Served.antt =====
-- A result that is computed once and served again (utils/cache-decorator.ts).
use bukia_hft.Base.{◌≡◌, ◌≢◌, refl, ap, ◌∙◌, ◌<◌, String, none, some}
use bukia_hft.Tx.{Result, ok}
use bukia_hft.Db.Keys.{not_blank}
use bukia_hft.Redis.{Redis, Session}
use bukia_hft.Redis.Laws.{RedisLaws, absent}
use bukia_hft.Cache.{CacheOptions, finish, compute, cacheable}

module _ (r : Redis) (laws : RedisLaws r) (A : Type 0) (parse : String → Result A)
    (stringify : A → String) (options : CacheOptions) (meanwhile : Session r → Session r) where
  abbrev Method : Type 0
  Method = Session r → Result A × Session r

  abbrev pub locked : Session r → Session r
  locked s = record s { store = r.set options.lock_key "1" options.lock_ttl_seconds s.store }

  first_call :
      (original : Method) (s : Session r)
      → r.get options.key s.store ≡ none
      → r.ttl options.lock_key s.store ≡ absent
      → cacheable r A parse stringify options meanwhile original s
        ≡ finish r A parse stringify options meanwhile original (original (locked s))
  unfolding cacheable compute
  first_call original s empty free =
      let got = laws.set_nx_absent options.lock_key "1" options.lock_ttl_seconds s.store free in
      rw (cacheable, empty, compute, got) refl

  kept_call :
      (original : Method) (s : Session r) (raw : String)
      → r.get options.key s.store ≡ some raw
      → raw ≢ ""
      → cacheable r A parse stringify options meanwhile original s ≡ (parse raw, s)
  unfolding cacheable
  kept_call original s raw found filled = rw (cacheable, found, not_blank raw filled) refl

  -- Let the two keys differ and the life of a result not be 0, let JSON read the result back, and let
  -- neither a result nor a lock be there. When the method returns a result, the decorated method
  -- returns it and leaves no lock; the next call, within the life of the result, returns it too,
  -- without a call of its method, whatever that one would do.
  pub cached_result_is_served :
      (original next : Method) (s s2 : Session r) (a : A)
      → options.key ≢ options.lock_key
      → 0 < options.ttl_seconds
      → parse (stringify a) ≡ ok a
      → stringify a ≢ ""
      → r.get options.key s.store ≡ none
      → r.ttl options.lock_key s.store ≡ absent
      → original (locked s) ≡ (ok a, s2)
      → let q = cacheable r A parse stringify options meanwhile original s in
        (q.0 ≡ ok a)
        × (r.ttl options.lock_key q.1.store ≡ absent)
        × (cacheable r A parse stringify options meanwhile next q.1 ≡ (ok a, q.1))
  cached_result_is_served original next s s2 a apart lives reads filled empty free ran =
      let q = cacheable r A parse stringify options meanwhile original s in
      let stored = r.set options.key (stringify a) options.ttl_seconds s2.store in
      let done =
        first_call original s empty free
        ∙ ap (finish r A parse stringify options meanwhile original) ran in
      let there =
        ap (λ q. r.get options.key q.1.store) done
        ∙ laws.get-del_other options.key options.lock_key stored apart
        ∙ laws.get-set options.key (stringify a) options.ttl_seconds s2.store lives in
      (
        ap (λ q. q.0) done,
        ap (λ q. r.ttl options.lock_key q.1.store) done ∙ laws.ttl-del options.lock_key stored,
        kept_call next q.1 (stringify a) there filled ∙ ap (λ o. (o, q.1)) reads,
      )
