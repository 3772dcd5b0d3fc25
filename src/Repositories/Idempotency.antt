-- ===== src/Repositories/Idempotency.antt =====
-- repositories/idempotency.repository.ts. An UPDATE returns the number of rows that it affected.
use bukia_hft.Base.{
  ℕ, String, Bool, true, false, ◌&&◌, Option, none, some, [], ◌∷◌, ◌++◌, find_row, count_rows,
  update_rows, str_eq,
}
use bukia_hft.Db.{Db, Status, pending, processing, completed, failed, Response, reason, Idempotency}

abbrev pub key_is : String → Idempotency → Bool
key_is key r = str_eq r.key key

abbrev pub is_pending : Status → Bool
is_pending pending = true
is_pending _ = false

-- `WHERE key = :key AND status = 'pending'`
abbrev pub is_pending_key : String → Idempotency → Bool
is_pending_key key r = key_is key r && is_pending r.status

unfoldable pub find_by_key : String → Db → Option Idempotency
find_by_key key db = find_row (key_is key) db.records

abbrev update_where : (Idempotency → Bool) → (Idempotency → Idempotency) → Db → ℕ × Db
update_where p f db = (count_rows p db.records, record db { records = update_rows p f db.records })

-- `INSERT … ON CONFLICT DO NOTHING`, then the row of the key.
unfoldable pub create_record : String → Db → Option Idempotency × Db
unfolding find_by_key
create_record key db =
    let row : Idempotency = record {
      key = key;
      processed_at = none;
      response = none;
      status = pending;
    } in
    let db' : Db = elim (find_by_key key db) [
      | none ↦ record db { records = db.records ++ row ∷ [] }
      | some _ ↦ db
    ] in
    (find_by_key key db', db')

unfoldable pub mark_as_failed : String → String → Db → ℕ × Db
mark_as_failed key why db =
    update_where (key_is key)
      (λ r. record r { processed_at = some db.now; response = some (reason why); status = failed })
      db

unfoldable pub mark_as_pending : String → Db → ℕ × Db
mark_as_pending key =
    update_where (key_is key)
      (λ r. record r { processed_at = none; response = none; status = pending })

unfoldable pub mark_as_processing : String → Db → ℕ × Db
mark_as_processing key db =
    update_where (key_is key) (λ r. record r { processed_at = some db.now; status = processing }) db

unfoldable pub mark_completed : String → Option Response → Db → ℕ × Db
mark_completed key response db =
    update_where (key_is key)
      (λ r. record r { processed_at = some db.now; response = response; status = completed }) db

unfoldable pub mark_processing_record : String → Db → ℕ × Db
mark_processing_record key =
    update_where (is_pending_key key) (λ r. record r { status = processing })
