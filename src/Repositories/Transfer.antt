-- ===== src/Repositories/Transfer.antt =====
-- repositories/transfer.repository.ts, with the foreign keys of the table. It has no unique index.
use bukia_hft.Base.{ℕ, String, Bool, Option, none, some, [], ◌∷◌, ◌++◌, ◌+◌, find_row}
use bukia_hft.Base.Int.{ℤ}
use bukia_hft.Db.{Db, Transfer}
use bukia_hft.Db.Keys.{has_text}
use bukia_hft.Tx.{Result, ok, err, invalid_text, foreign_key}
use bukia_hft.Repositories.Ledger.{wallet_is}

abbrev pub key_is : String → Transfer → Bool
key_is key t = has_text key t.idempotency_key

unfoldable pub find_by_idempotency_key : String → Db → Option Transfer
find_by_idempotency_key key db = find_row (key_is key) db.transfers

-- The INSERT of `repo.save`, which sets the id; `amount` is the value of the text.
unfoldable pub create_transfer : Option ℤ → (ℤ → ℕ → Transfer) → Db → Result (Transfer × Db)
create_transfer none entity db = err invalid_text
create_transfer (some amount) entity db =
    let row = entity amount db.next_transfer in
    elim (find_row (wallet_is row.from_wallet_id) db.wallets) [
      | none ↦ err foreign_key
      | some _ ↦ elim (find_row (wallet_is row.to_wallet_id) db.wallets) [
        | none ↦ err foreign_key
        | some _ ↦ ok (
          row,
          record db { transfers = db.transfers ++ row ∷ []; next_transfer = db.next_transfer + 1 },
        )
      ]
    ]
