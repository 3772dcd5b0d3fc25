-- ===== src/Controllers/OpenWallet.antt =====
-- POST / of routes/wallet.routes.ts: `createWallet` of controllers/wallet.controller.ts gives the service no
-- manager.
use bukia_hft.Base.{◌≡◌, ◌≤◌}
use bukia_hft.Db.{Db}
use bukia_hft.Redis.{Redis, Session}
use bukia_hft.Repositories.Wallet
use bukia_hft.Controllers.{Answer, answer_status, Server}
use bukia_hft.Controllers.Customers.{Reports}

module _ (r : Redis) (server : Server r) (reports : Reports r) where
  -- An answer that is an error, by which nothing has changed.
  abbrev pub Fails : Answer × Session r → Session r → Type 0
  Fails q s = (400 ≤ answer_status q.0) × (q.1 ≡ s)
