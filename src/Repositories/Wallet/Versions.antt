-- ===== src/Repositories/Wallet/Versions.antt =====
-- The optimistic lock (repositories/wallet.repository.ts, `incrementVersionIfMatch`).
use bukia_hft.Base.{◌≡◌, ℕ, ◌+◌, arith, count-update_none, false, true}
use bukia_hft.Db.{Db, Wallet}
use bukia_hft.Repositories.Wallet.{version_is, increment_version_if_match}

abbrev bump : Wallet → Wallet
bump w = record w { version = w.version + 1 }

bump-not_version :
    (id v : ℕ) (w : Wallet) → version_is id v w ≡ true → version_is id v (bump w) ≡ false
bump-not_version id v w h = ground arith

pub increment_twice :
    (id v : ℕ) (db : Db)
    → (increment_version_if_match id v (increment_version_if_match id v db).1).0 ≡ 0
unfolding increment_version_if_match
increment_twice id v db =
    count-update_none (version_is id v) bump db.wallets (bump-not_version id v)
