-- ===== src/Tx.antt =====
-- Errors, and a database transaction (utils/db.ts).
pub mod Inversion
pub mod Quiet
use bukia_hft.Base.Int.{ℤ}
use bukia_hft.Base.{◌≡◌, refl, ◌⊎◌, inl, inr, ⊤, String, Bool, true, false, if◌then◌else◌}
use bukia_hft.Db.{Db}

-- What the modelled code throws, or what the database and the services it calls throw through it.
pub data Error : Type 0 where
  -- `PermanentError` and `OptimisticLockError` of services/transfer.services.ts
  permanent : String → Error
  optimistic_lock : String → Error
  -- a plain `Error`, and a `TypeError` on a null value
  plain : String → Error
  null_access : Error
  -- Postgres: 23505, 23503, 22P02, 25P02
  duplicate_key : Error
  foreign_key : Error
  invalid_text : Error
  transaction_aborted : Error
  -- the classes of middleware/error.ts, with the seconds of a `RateLimitError`
  bad_request unauthorized forbidden not_found conflict invalid_input server_error : String → Error
  rate_limit : String → ℤ → Error
  -- an error that a called service raised, with its text
  service : String → Error

pub data Result {ℓ} (A : Type ℓ) : Type ℓ where
  ok : A → Result A
  err : Error → Result A

pub Result-cases :
    {A : Type 0} (r : Result A) → ((e : Error) × (r ≡ err e)) ⊎ ((a : A) × (r ≡ ok a))
Result-cases (ok a) = inr (a, refl)
Result-cases (err e) = inl (e, refl)

-- What a transaction sees: the committed rows, its own working copy, and whether Postgres has
-- aborted it after a failed statement.
pub record TxState : Type 0 where
  pub committed : Db
  pub work : Db
  pub aborted : Bool

abbrev pub Tx : Type 0 → Type 0
Tx A = TxState → Result A × TxState

module _ {A : Type 0} where
  abbrev pub pure : A → Tx A
  pure a s = (ok a, s)

  abbrev pub throw : Error → Tx A
  throw e s = (err e, s)

  -- A statement on the transaction's connection. A failed one aborts the transaction, and in an
  -- aborted transaction every statement fails.
  unfoldable pub statement : (Db → Result (A × Db)) → Tx A
  statement q s = elim s.aborted [
    | true ↦ (err transaction_aborted, s)
    | false ↦ elim (q s.work) [
      | ok (a, w) ↦ (ok a, record s { work = w })
      | err e ↦ (err e, record s { aborted = true })
    ]
  ]

  -- A statement that cannot fail by itself.
  unfoldable pub query : (Db → A × Db) → Tx A
  unfolding statement
  query q = statement (λ db. ok (q db))

  -- A read.
  unfoldable pub select : (Db → A) → Tx A
  unfolding query
  select q = query (λ db. (q db, db))

  -- A call on another connection, which sees committed rows only and commits at once.
  unfoldable pub outside : (Db → A × Db) → Tx A
  outside q s = let (a, c) = q s.committed in (ok a, record s { committed = c })

abbrev pub throw_if : Bool → Error → Tx ⊤
throw_if c e s = (if c then err e else ok tt, s)

infixl 5 ◌>>=◌ ◌>>◌
abbrev pub ◌>>=◌ : {A B : Type 0} → Tx A → (A → Tx B) → Tx B
◌>>=◌ m f s = let (r, s') = m s in elim r [ ok a ↦ f a s' | err e ↦ (err e, s') ]

abbrev pub ◌>>◌ : {A B : Type 0} → Tx A → Tx B → Tx B
m >> k = m >>= λ _. k

-- `Transactional`: commit if the method returns, roll back if it throws. COMMIT of an aborted
-- transaction is a roll-back.
unfoldable pub transaction : {A : Type 0} → Tx A → Db → Result A × Db
transaction m db =
    let (r, s) = m (record { committed = db; work = db; aborted = false }) in
    elim r [
      | ok a ↦ (ok a, if s.aborted then s.committed else s.work)
      | err e ↦ (err e, s.committed)
    ]
