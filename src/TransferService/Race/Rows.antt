-- ===== src/TransferService/Race/Rows.antt =====
-- What an earlier transfer changes in the rows that a later one reads: the versions of wallets, and the
-- idempotency record and the entries of another key.
use bukia_hft.Base.{
  ◌≡◌, ◌≢◌, refl, ℕ, ◌+◌, String, Bool, true, false, some, List, [], ◌∷◌, arith, find_row,
  count_rows, update_rows, if◌then◌else◌, find_row-append_some, eq_iff, Option-cases, inl, inr,
}
use bukia_hft.Db.{Db, Wallet, Idempotency, processing}
use bukia_hft.Platform.{Platform}
use bukia_hft.Repositories.Idempotency
use bukia_hft.Repositories.Idempotency.{is_pending_key}
use bukia_hft.Repositories.Ledger.{wallet_is}
use bukia_hft.Repositories.Wallet
use bukia_hft.Repositories.Wallet.Versions.{increment_twice}
use bukia_hft.TransferService.{Payload, convert, get_credit_amount}

-- The row that is found after an UPDATE which keeps the test of the rows.
find-update :
    {A : Type 0} (p q : A → Bool) (f : A → A) (xs : List A) (x : A)
    → ((y : A) → p (f y) ≡ p y)
    → find_row p xs ≡ some x
    → find_row p (update_rows q f xs) ≡ some (if q x then f x else x)
unfolding find_row update_rows
find-update p q f [] x same h = cc
find-update p q f (y ∷ xs) x same h = ground (arith, same y, find-update p q f xs x same)

-- The same where only the rows that pass the test of the UPDATE matter, and those fail the search.
find-update_apart :
    {A : Type 0} (p q : A → Bool) (f : A → A) (xs : List A) (x : A)
    → ((y : A) → q y ≡ true → (p y ≡ false) × (p (f y) ≡ false))
    → find_row p xs ≡ some x
    → find_row p (update_rows q f xs) ≡ some x
unfolding find_row update_rows
find-update_apart p q f [] x apart h = cc
find-update_apart p q f (y ∷ xs) x apart h =
    ground (arith, apart y, find-update_apart p q f xs x apart)

-- No row passes after an UPDATE whose new rows fail.
count-update_zero :
    {A : Type 0} (p q : A → Bool) (f : A → A) (xs : List A)
    → ((y : A) → q y ≡ true → p (f y) ≡ false)
    → count_rows p xs ≡ 0
    → count_rows p (update_rows q f xs) ≡ 0
unfolding count_rows update_rows
count-update_zero p q f [] h e = refl
count-update_zero p q f (y ∷ xs) h e = ground (arith, h y, count-update_zero p q f xs h)

-- Two wallets that differ in the version at most.
abbrev pub IsVersionOf : Wallet → Wallet → Type 0
IsVersionOf w v =
    (w.id ≡ v.id)
    × (w.currency ≡ v.currency)
    × (w.user_id ≡ v.user_id)
    × (w.is_default ≡ v.is_default)

pub find-increment :
    (id other version : ℕ) (db : Db) (v : Wallet)
    → Wallet.find_by_id id db ≡ some v
    → (w : Wallet) × (Wallet.find_by_id id (Wallet.increment_version_if_match other version db).1
        ≡ some w)
      × IsVersionOf w v
unfolding Wallet.find_by_id Wallet.increment_version_if_match
find-increment id other version db v found =
    let bump : Wallet → Wallet = λ w. record w { version = w.version + 1 } in
    let q = Wallet.version_is other version in
    (
      _,
      find-update (wallet_is id) q bump db.wallets v (λ y. refl) found,
      (ground arith, ground arith, ground arith, ground arith),
    )

-- Once the version of a wallet has been raised, the old version matches no row, and an update of another
-- wallet does not change that.
pub stale_version :
    (id version other v : ℕ) (db : Db)
    → id ≢ other
    → (Wallet.increment_version_if_match id version
        (Wallet.increment_version_if_match other v
          (Wallet.increment_version_if_match id version db).1).1).0
      ≡ 0
unfolding Wallet.increment_version_if_match
stale_version id version other v db apart =
    let bump : Wallet → Wallet = λ w. record w { version = w.version + 1 } in
    count-update_zero (Wallet.version_is id version) (Wallet.version_is other v) bump
      (Wallet.increment_version_if_match id version db).1.wallets (λ y h. ground arith)
      (increment_twice id version db)

-- The price of a transfer depends on the currencies of the wallets.
pub get_credit_amount-of_versions :
    (platform : Platform) (p : Payload) (f t f' t' : Wallet)
    → IsVersionOf f' f
    → IsVersionOf t' t
    → get_credit_amount platform p (f', t') ≡ get_credit_amount platform p (f, t)
unfolding get_credit_amount convert
get_credit_amount-of_versions platform p f t f' t' one two = rw (one.1, two.1)

-- An INSERT that does nothing on a conflict leaves the rows that are there.
create_record-keeps :
    (key : String) (p : Idempotency → Bool) (db : Db) (r : Idempotency)
    → find_row p db.records ≡ some r
    → find_row p (Idempotency.create_record key db).1.records ≡ some r
unfolding Idempotency.create_record
create_record-keeps key p db r found = elim (Option-cases (Idempotency.find_by_key key db)) [
  | inl new ↦ rw (Idempotency.create_record, new) (find_row-append_some p db.records _ r found)
  | inr (old, there) ↦ rw (Idempotency.create_record, there) found
]

-- The record of another key is still pending once a transfer has claimed its own key.
pub pending-claimed :
    (key other : String) (db : Db) (r : Idempotency)
    → key ≢ other
    → find_row (is_pending_key other) db.records ≡ some r
    → find_row
        (is_pending_key other)
        (Idempotency.create_record key (Idempotency.mark_processing_record key db).1).1.records
      ≡ some r
unfolding Idempotency.mark_processing_record
pending-claimed key other db r apart found =
    create_record-keeps key (is_pending_key other) (Idempotency.mark_processing_record key db).1 r (
      find-update_apart (is_pending_key other) (is_pending_key key)
        (λ (r : Idempotency). record r { status = processing }) db.records r
        (λ y h. (ground (arith, eq_iff y.key key, eq_iff y.key other), ground arith)) found)
