-- ===== src/Analytics/Cached.antt =====
-- The decorated methods of services/analytics.services.ts: `computeAnalytics`, which `getUserAnalytics` calls,
-- and `getSystemSummary`. `text_of` prints a number.
use bukia_hft.Base.{ℕ, String, Option}
use Prim.Native.String.{◌++◌}
use bukia_hft.Base.Int.{ℤ}
use bukia_hft.Db.{Db}
use bukia_hft.Tx.{Result}
use bukia_hft.Platform.{Platform}
use bukia_hft.Redis.{Redis, Session}
use bukia_hft.Cache.{CacheOptions, cacheable}
use bukia_hft.Analytics.{UserAnalytics, SystemSummary, compute_analytics, system_summary}

abbrev cache_ttl : ℕ
cache_ttl = 30

abbrev pub user_options : (ℕ → String) → ℕ → String → CacheOptions
user_options text_of user_id base = record {
  key = "analytics:user:" ++ text_of user_id ++ ":currency:" ++ base;
  lock_key = "analytics:lock:user:" ++ text_of user_id;
  lock_ttl_seconds = 5;
  ttl_seconds = cache_ttl;
}

abbrev pub system_options : String → CacheOptions
system_options base = record {
  key = "analytics:system:summary:currency:" ++ base;
  lock_key = "analytics:system:summary:lock";
  lock_ttl_seconds = 5;
  ttl_seconds = cache_ttl;
}

-- A method that reads the tables.
abbrev pub reads : {A : Type 0} → (Db → Result A) → (r : Redis) → Session r → Result A × Session r
reads f r s = (f s.db, s)

module _ (platform : Platform) (number_text : Option ℤ → String) (r : Redis)
    (meanwhile : Session r → Session r) where
  unfoldable pub get_user_analytics :
      (ℕ → String)
      → (String → Result UserAnalytics)
      → (UserAnalytics → String)
      → ℕ
      → String
      → Session r
      → Result UserAnalytics × Session r
  unfolding cacheable compute_analytics
  get_user_analytics text_of parse stringify user_id base =
      cacheable r UserAnalytics parse stringify (user_options text_of user_id base) meanwhile
        (reads (compute_analytics platform number_text user_id base) r)

  unfoldable pub get_system_summary :
      (String → Result SystemSummary)
      → (SystemSummary → String)
      → String
      → Session r
      → Result SystemSummary × Session r
  unfolding cacheable system_summary
  get_system_summary parse stringify base =
      cacheable r SystemSummary parse stringify (system_options base) meanwhile
        (reads (system_summary platform number_text base) r)
