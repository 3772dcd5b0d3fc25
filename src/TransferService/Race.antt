-- ===== src/TransferService/Race.antt =====
-- services/transfer.services.ts: `executeTransaction` while other transactions commit. Postgres runs it under
-- READ COMMITTED, so that a statement sees all that was committed before it, and `@Transactional()`
-- (utils/db.ts) asks for nothing stricter.
pub mod Rows
pub mod Later
pub mod Refused
pub mod Overdraft
pub mod Decided
use bukia_hft.Base.{◌≡◌, refl, ⊤, none, some, str_eq}
use bukia_hft.Db.{Db}
use bukia_hft.Tx.{permanent, Result, ok, Tx, pure, throw_if, ◌>>=◌, ◌>>◌, transaction}
use bukia_hft.Platform.{Platform}
use bukia_hft.TransferService.{
  Payload, TransferResult, process_idempotency_record, check_existing_transactions,
  validate_transfer_request, get_wallets,
}
use bukia_hft.TransferService.Execute.{
  perform_transfer, settle_transfer, execute_body, execute_transaction,
}

-- Others commit between two statements: what they change is changed in the committed rows and under the
-- rows that this transaction has written, which are other rows.
abbrev pub commits : (Db → Db) → Tx ⊤
commits others s = (ok tt, record s { committed = others s.committed; work = others s.work })

-- `executeTransaction`, with what others commit before `getWallets` and after it.
module _ (platform : Platform) (before after : Db → Db) where
  unfoldable pub perform_between : Payload → Tx TransferResult
  unfolding validate_transfer_request get_wallets settle_transfer
  perform_between payload = do
    validate_transfer_request platform payload
    commits before
    wallets ← get_wallets payload.from_wallet_id payload.to_wallet_id
    commits after
    settle_transfer platform payload wallets

  unfoldable pub body_between : Payload → Tx TransferResult
  body_between payload = do
    throw_if (str_eq payload.idempotency_key "") (permanent "idempotencyKey required")
    process_idempotency_record payload.idempotency_key
    existing ← check_existing_transactions payload.idempotency_key
    elim existing [ some r ↦ pure r | none ↦ perform_between payload ]

  unfoldable pub execute_between : Payload → Db → Result TransferResult × Db
  execute_between payload = transaction (body_between payload)

-- Where nobody else commits, this is `executeTransaction`.
undisturbed :
    (platform : Platform) (p : Payload) (db : Db)
    → execute_between platform (λ d. d) (λ d. d) p db ≡ execute_transaction platform p db
unfolding execute_between body_between perform_between execute_transaction execute_body
    perform_transfer
undisturbed platform p db = refl
