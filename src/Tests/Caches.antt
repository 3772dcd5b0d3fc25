-- ===== src/Tests/Caches.antt =====
-- The theorem on cached results at a concrete input.
use bukia_hft.Base.{◌≡◌, ◌≢◌, refl, String, [], arith}
use text.Mathlib.TextLemmas.{cons≢nil}
use text.Mathlib.TextEquality.{eq_iff}
use bukia_hft.Tx.{plain, Result, ok, err}
use bukia_hft.Redis.{Session}
use bukia_hft.Redis.Laws.{absent}
use bukia_hft.Redis.Memory.{memory, empty, memory-RedisLaws}
use bukia_hft.Cache.{CacheOptions, cacheable}
use bukia_hft.Cache.Served.{locked, cached_result_is_served}
use bukia_hft.Example.{db}

abbrev options : CacheOptions
options = record { key = "sum"; lock_key = "lock"; lock_ttl_seconds = 5; ttl_seconds = 30 }

abbrev parse : String → Result String
parse t = ok t

abbrev stringify : String → String
stringify t = t

abbrev idle : Session memory → Session memory
idle s = s

abbrev start : Session memory
start = record { db = db; store = empty; outbox = [] }

abbrev total : Session memory → Result String × Session memory
total s = (ok "42", s)

abbrev broken : Session memory → Result String × Session memory
broken s = (err (plain "no"), s)

keys_differ : options.key ≢ options.lock_key
keys_differ e = cc ((eq_iff "sum" "lock").1 e)

filled : stringify "42" ≢ ""
filled e = cons≢nil e

cached_result_is_served_example :
    let q = cacheable memory String parse stringify options idle total start in
    (q.0 ≡ ok "42")
    × (memory.ttl "lock" q.1.store ≡ absent)
    × (cacheable memory String parse stringify options idle broken q.1 ≡ (ok "42", q.1))
cached_result_is_served_example =
    cached_result_is_served memory memory-RedisLaws String parse stringify options idle total broken
      start (locked memory memory-RedisLaws String parse stringify options idle start) "42"
      keys_differ (omega arith) refl filled refl refl refl
