-- ===== src/Cache.antt =====
-- utils/cache-decorator.ts: a method whose results are kept in Redis as JSON. What JSON makes of a result,
-- and what the rest of the world does in 200 ms, are parameters.
pub mod Served
use bukia_hft.Base.{
  ℕ, zero, suc, String, Bool, true, false, Option, none, some, str_eq, if◌then◌else◌,
}
use bukia_hft.Tx.{Result, ok, err}
use bukia_hft.Redis.{Redis, Session}

-- The options for one call; a lock lives for 5 seconds and a result for 30 where they do not say.
pub record CacheOptions : Type 0 where
  pub key : String
  pub lock_key : String
  pub lock_ttl_seconds : ℕ
  pub ttl_seconds : ℕ

module _ (r : Redis) (A : Type 0) (parse : String → Result A) (stringify : A → String)
    (options : CacheOptions) (meanwhile : Session r → Session r)
    (original : Session r → Result A × Session r) where
  -- A result that is kept, if it is not an empty text.
  abbrev pub kept : Session r → Option String
  kept s = elim (r.get options.key s.store) [
    | none ↦ none
    | some raw ↦ if str_eq raw "" then none else some raw
  ]

  -- The call of the holder of the lock, and its `finally`.
  abbrev pub finish : Result A × Session r → Result A × Session r
  finish (ok res, s) = (
    ok res,
    record s {
      store =
          r.del options.lock_key (r.set options.key (stringify res) options.ttl_seconds s.store);
    },
  )
  finish (err e, s) = (err e, record s { store = r.del options.lock_key s.store })

  -- The others look for a result, as often as the number says, and then call the method.
  unfoldable pub poll : ℕ → Session r → Result A × Session r
  poll zero s = original s
  poll (suc n) s =
      let s' = meanwhile s in
      let rest = poll n s' in elim (kept s') [ some raw ↦ (parse raw, s') | none ↦ rest ]

  unfoldable pub compute : Session r → Result A × Session r
  unfolding poll
  compute s = elim (r.set_nx options.lock_key "1" options.lock_ttl_seconds s.store) [
    | some store ↦ finish (original (record s { store = store }))
    | none ↦ poll 5 s
  ]

  -- The decorated method.
  unfoldable pub cacheable : Session r → Result A × Session r
  unfolding compute
  cacheable s = elim (kept s) [ some raw ↦ (parse raw, s) | none ↦ compute s ]
