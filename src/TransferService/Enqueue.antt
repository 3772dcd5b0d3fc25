-- ===== src/TransferService/Enqueue.antt =====
-- services/transfer.services.ts: `enqueueTransfer`, which a request calls, and the queue of jobs.
use bukia_hft.Base.{
  ⊤, String, Bool, true, false, not, none, some, List, [], ◌∷◌, ◌++◌, ◌==◌, str_eq, ltb,
  if◌then◌else◌,
}
use Prim.Native.Char.{code}
use bukia_hft.Db.{Db, pending, processing, completed, failed}
use bukia_hft.Tx.{plain, bad_request, Result, ok, err}
use bukia_hft.Platform.{Platform}
use bukia_hft.Repositories.Idempotency
use bukia_hft.Repositories.Wallet
use bukia_hft.TransferService.{Payload}

-- JavaScript's `<` on two strings: by code units, which are the code points of texts of digits.
abbrev pub lt_text : String → String → Bool
lt_text String.[] String.[] = false
lt_text String.[] (String.◌∷◌ d t) = true
lt_text (String.◌∷◌ c s) String.[] = false
lt_text (String.◌∷◌ c s) (String.◌∷◌ d t) =
    let rest = lt_text s t in
    if ltb (code c) (code d) then true else if code c == code d then rest else false

-- What an enqueued payload meets: the database and the jobs of the queue `transfers`.
pub record Api : Type 0 where
  pub db : Db
  pub jobs : List Payload

-- `handleIdempotencyForEnqueue`
unfoldable pub handle_idempotency_for_enqueue : String → Db → Result ⊤ × Db
unfolding Idempotency.find_by_key Idempotency.create_record
handle_idempotency_for_enqueue key db =
    if str_eq key "" then (ok tt, db) else elim (Idempotency.find_by_key key db) [
      | none ↦ (ok tt, (Idempotency.create_record key db).1)
      | some r ↦ elim r.status [
        | completed ↦ (err (plain "Idempotency key already processed"), db)
        | processing ↦ (err (plain "Transfer is already being processed"), db)
        | failed ↦ (err (plain "Previous transfer failed, cannot enqueue"), db)
        | pending ↦ (ok tt, db)
      ]
    ]

-- `addTransferJob`, and the `id` of the job: its place in the queue.
abbrev pub add_transfer_job : Payload → Api → Api
add_transfer_job payload s = record s { jobs = s.jobs ++ payload ∷ [] }

module _ (platform : Platform) where
  open platform use {numeric_text}

  -- `enqueueTransfer`: the balance and the amount are compared as texts.
  unfoldable pub enqueue_transfer : Payload → Api → Result ⊤ × Api
  unfolding Wallet.find_by_id Wallet.get_balance handle_idempotency_for_enqueue
  enqueue_transfer payload s = elim (Wallet.find_by_id payload.from_wallet_id s.db) [
    | none ↦ (err (bad_request "User is not the owner of wallet"), s)
    | some w ↦
        if not (w.user_id == payload.user_id)
        then (err (bad_request "User is not the owner of wallet"), s)
        else if lt_text (numeric_text (Wallet.get_balance payload.from_wallet_id s.db))
            payload.amount
        then (err (bad_request "Insufficient funds"), s)
        else (let (r, db') = handle_idempotency_for_enqueue payload.idempotency_key s.db in
            let s' : Api = record s { db = db' } in
            elim r [
              | err e ↦ (err e, s')
              | ok _ ↦ (ok tt, add_transfer_job (record payload { currency = w.currency }) s')
            ])
  ]
