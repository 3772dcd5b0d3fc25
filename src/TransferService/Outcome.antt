-- ===== src/TransferService/Outcome.antt =====
-- How `executeTransaction` (services/transfer.services.ts) ends: the transfer of an earlier run, a new
-- transfer, or an error.
use bukia_hft.Base.{
  ◌≡◌, refl, sym, ap, ◌∙◌, ℕ, String, false, Option, none, some, arith, Option-cases, inl, inr, ◌⊎◌,
  str_eq, if◌then◌else◌,
}
use mathlib.Core.Path.{subst}
use bukia_hft.Db.{Db, Transfer, LedgerEntry, Response}
use bukia_hft.Tx.{
  Error, Result, ok, err, Tx, TxState, ◌>>=◌, throw_if, pure, permanent, transaction,
}
use bukia_hft.Tx.Inversion.{>>=-eq-ok, throw_if-eq-ok}
use bukia_hft.Tx.Quiet.{committed->>=}
use bukia_hft.Platform.{Platform}
use bukia_hft.Repositories.Ledger
use bukia_hft.Repositories.Transfer
use bukia_hft.TransferService.{
  Payload, TransferResult, reconcile, process_idempotency_record, check_existing_transactions,
}
use bukia_hft.TransferService.Execute.{perform_transfer, execute_body, execute_transaction}
use bukia_hft.TransferService.Atomic.{
  IsUnknown, process_idempotency_record-IsQuiet, check_existing_transactions-IsQuiet,
  perform_transfer-IsQuietWhen,
}
use bukia_hft.TransferService.Performed.{Performed, perform_transfer-eq-ok}

-- The working copy differs from the database `db` in the idempotency records only.
abbrev pub SameButRecords : Db → Db → Type 0
SameButRecords db w = w ≡ record db { records = w.records }

process_idempotency_record-eq-ok :
    (key : String) (s : TxState) (a : Option Response) (t : TxState)
    → process_idempotency_record key s ≡ (ok a, t)
    → (s.aborted ≡ false) × (t.aborted ≡ false) × SameButRecords s.work t.work
unfolding process_idempotency_record
process_idempotency_record-eq-ok key s a t h = (ground arith, ground arith, ground arith)

-- What `checkExistingTransactions` has found.
abbrev Existing : String → Db → Option TransferResult → Type 0
Existing key db none =
    (Transfer.find_by_idempotency_key key db ≡ none)
    × (Ledger.find_by_idempotency_key key db ≡ none)
Existing key db (some (some id)) =
    (row : Transfer) × (Transfer.find_by_idempotency_key key db ≡ some row) × (id ≡ row.id)
Existing key db (some none) =
    (Transfer.find_by_idempotency_key key db ≡ none)
    × (row : LedgerEntry) × (Ledger.find_by_idempotency_key key db ≡ some row)

check_existing_transactions-eq-ok :
    (key : String) (s : TxState) (r : Option TransferResult) (t : TxState)
    → check_existing_transactions key s ≡ (ok r, t)
    → (t.aborted ≡ false) × SameButRecords s.work t.work × Existing key s.work r
unfolding check_existing_transactions
check_existing_transactions-eq-ok key s r t h =
    elim (Option-cases (Transfer.find_by_idempotency_key key s.work)) [
      | inr (row, found) ↦
          let same : r ≡ some (some row.id) = ground arith in
          (ground arith, ground arith, rw same (row, found, refl))
      | inl missing ↦ elim (Option-cases (Ledger.find_by_idempotency_key key s.work)) [
        | inr (row, found) ↦
            let same : r ≡ some none = ground arith in
            (ground arith, ground arith, rw same (missing, row, found))
        | inl absent ↦
            let same : r ≡ none = ground arith in
            (ground arith, ground arith, rw same (missing, absent))
      ]
    ]

-- The key has a transfer or entries from an earlier run, which is what the call returns.
pub record IsReplay (p : Payload) (db : Db) (r : TransferResult) (db' : Db) : Type 0 where
  pub kept : SameButRecords db db'
  pub existing : Existing p.idempotency_key db (some r)

-- A new transfer under a key that had none. `claimed` is the database once the record of the key
-- has been claimed.
pub record IsFresh (platform : Platform) (p : Payload) (db : Db) (r : TransferResult) (db' : Db)
    : Type 0 where
  pub claimed : Db
  pub kept : SameButRecords db claimed
  pub absent : Existing p.idempotency_key db none
  pub id : ℕ
  pub returned : r ≡ some id
  pub performed : Performed platform p claimed id db'

Existing-of_same :
    (key : String) (db w : Db) (r : Option TransferResult)
    → SameButRecords db w
    → Existing key w r
    → Existing key db r
unfolding Transfer.find_by_idempotency_key Ledger.find_by_idempotency_key
Existing-of_same key db w none same e = rw same at e
Existing-of_same key db w (some none) same e = rw same at e
Existing-of_same key db w (some (some id)) same e = rw same at e

-- The state in which a transaction begins.
abbrev initial : Db → TxState
initial db = record { committed = db; work = db; aborted = false }

-- The branch of `execute_body` on what `checkExistingTransactions` returned.
abbrev continue : Platform → Payload → Option TransferResult → Tx TransferResult
continue platform p existing = elim existing [
  | some r ↦ pure r
  | none ↦ perform_transfer platform p
]

abbrev resume : Platform → Payload → Tx TransferResult
resume platform p = check_existing_transactions p.idempotency_key >>= continue platform p

continue-eq-ok :
    (platform : Platform) (p : Payload) (db : Db) (x : Option TransferResult) (s : TxState)
    (r : TransferResult) (t : TxState)
    → s.aborted ≡ false
    → SameButRecords db s.work
    → Existing p.idempotency_key db x
    → continue platform p x s ≡ (ok r, t)
    → (t.aborted ≡ false) × (IsReplay p db r t.work ⊎ IsFresh platform p db r t.work)
continue-eq-ok platform p db (some x) s r t live same e h =
    let is : x ≡ r = cc in
    let st : s ≡ t = cc in
    (rw st at live, inl (record { kept = (rw st at same); existing = (rw is at e) }))
continue-eq-ok platform p db none s r t live same e h =
    let (id, returned, live', performed) = perform_transfer-eq-ok platform p s r t h in
    (
      live',
      inr (record {
        claimed = s.work;
        kept = same;
        absent = e;
        id = id;
        returned = returned;
        performed = performed;
      }),
    )

SameButRecords-trans : (a b c : Db) → SameButRecords a b → SameButRecords b c → SameButRecords a c
SameButRecords-trans a b c p q = q ∙ ap (λ (d : Db). record d { records = c.records }) p

execute_body-eq-ok :
    (platform : Platform) (p : Payload) (s : TxState) (r : TransferResult) (t : TxState)
    → execute_body platform p s ≡ (ok r, t)
    → (t.aborted ≡ false) × (IsReplay p s.work r t.work ⊎ IsFresh platform p s.work r t.work)
unfolding execute_body
execute_body-eq-ok platform p s r t h =
    let key = p.idempotency_key in
    let (_, u, named, h1) =
      >>=-eq-ok (throw_if (str_eq key "") (permanent "idempotencyKey required"))
        (λ _. process_idempotency_record key >>= λ _. resume platform p) s h in
    let (_, v, claimed, h2) =
      >>=-eq-ok (process_idempotency_record key) (λ _. resume platform p) u h1 in
    let (x, w, checked, h3) =
      >>=-eq-ok (check_existing_transactions key) (continue platform p) v h2 in
    let us : u ≡ s = (throw_if-eq-ok _ _ s tt u named).1 in
    let (_, _, uv) = process_idempotency_record-eq-ok key u _ v claimed in
    let (live, vw, found) = check_existing_transactions-eq-ok key v x w checked in
    let sv : SameButRecords s.work v.work = (rw us at uv) in
    continue-eq-ok platform p s.work x w r t live (SameButRecords-trans s.work v.work w.work sv vw)
      (Existing-of_same key s.work v.work x sv found) h3

transaction-eq-ok :
    {A : Type 0} (m : Tx A) (db : Db) (a : A) (db' : Db)
    → transaction m db ≡ (ok a, db')
    → (t : TxState) × (m (initial db) ≡ (ok a, t))
      × (db' ≡ (if t.aborted then t.committed else t.work))
unfolding transaction
transaction-eq-ok {A} m db a db' h = go (m (initial db)) refl
  where
    go :
        (q : Result A × TxState)
        → m (initial db) ≡ q
        → (t : TxState) × (m (initial db) ≡ (ok a, t))
          × (db' ≡ (if t.aborted then t.committed else t.work))
    go (ok b, t) e = (t, e ∙ ground arith, ground arith)
    go (err x, t) e = absurd (ground arith)

-- `executeTransaction` returns in two ways. Either the key had a transfer, or entries without one,
-- which the result names, and only idempotency records are written; or it had neither, the result is
-- the id of a new transfer, and the database is the one that the checks, the two entries, the transfer,
-- both version updates and the completion of the record lead to.
pub execute_transaction-eq-ok :
    (platform : Platform) (p : Payload) (db : Db) (r : TransferResult) (db' : Db)
    → execute_transaction platform p db ≡ (ok r, db')
    → IsReplay p db r db' ⊎ IsFresh platform p db r db'
unfolding execute_transaction
execute_transaction-eq-ok platform p db r db' h =
    let (t, ran, ends) = transaction-eq-ok (execute_body platform p) db r db' h in
    let (live, how) = execute_body-eq-ok platform p (initial db) r t ran in
    let same : db' ≡ t.work = (rw live at ends) in rw same how

-- With no transfer and no entry under the key, `reconcile` finds nothing.
IsUnknown-of_absent : (key : String) (db : Db) → Existing key db none → IsUnknown key db
unfolding reconcile
IsUnknown-of_absent key db (a, b) = ground arith

execute_body-committed :
    (platform : Platform) (p : Payload) (db : Db)
    → (execute_body platform p (initial db)).1.committed ≡ db
unfolding execute_body
execute_body-committed platform p db =
    let key = p.idempotency_key in
    committed->>= (throw_if (str_eq key "") (permanent "idempotencyKey required"))
      (λ _. process_idempotency_record key >>= λ _. resume platform p) (initial db) db refl
      λ _ u named c.
        let us : u ≡ initial db = (throw_if-eq-ok _ _ (initial db) tt u named).1 in
        committed->>= (process_idempotency_record key) (λ _. resume platform p) u db
          (process_idempotency_record-IsQuiet key u ∙ c)
          λ a v claimed cv.
            let (_, _, uv) = process_idempotency_record-eq-ok key u a v claimed in
            let same : SameButRecords db v.work = (rw us at uv) in
            committed->>= (check_existing_transactions key) (continue platform p) v db
              (check_existing_transactions-IsQuiet key v ∙ cv)
              λ x w checked cw.
                let (_, _, found) = check_existing_transactions-eq-ok key v x w checked in
                continued x w cw (Existing-of_same key db v.work x same found)
  where
    continued :
        (x : Option TransferResult) (w : TxState)
        → w.committed ≡ db
        → Existing p.idempotency_key db x
        → (continue platform p x w).1.committed ≡ db
    continued (some r) w cw e = cw
    continued none w cw e =
        perform_transfer-IsQuietWhen platform p w (
          subst (IsUnknown p.idempotency_key) (sym cw) (IsUnknown-of_absent p.idempotency_key db e))
        ∙ cw

-- When `executeTransaction` throws, every table is as before: its statements are rolled back, and
-- `reconcile`, which commits on another connection, has written nothing.
pub execute_transaction-eq-err :
    (platform : Platform) (p : Payload) (db : Db) (e : Error) (db' : Db)
    → execute_transaction platform p db ≡ (err e, db')
    → db' ≡ db
unfolding execute_transaction transaction
execute_transaction-eq-err platform p db e db' h =
    go (execute_body platform p (initial db)) refl (execute_body-committed platform p db)
  where
    go :
        (q : Result TransferResult × TxState)
        → execute_body platform p (initial db) ≡ q
        → q.1.committed ≡ db
        → db' ≡ db
    go (ok b, t) i c = absurd (ground arith)
    go (err x, t) i c = ground arith ∙ c
