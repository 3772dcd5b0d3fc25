-- ===== src/Repositories/Ledger/Joins.antt =====
-- What the queries over the ledger and its wallets (repositories/ledger.repository.ts) add up to.
use bukia_hft.Base.{
  ◌≡◌, refl, sym, ◌∙◌, ℕ, String, Bool, true, false, ◌&&◌, ◌==◌, List, [], ◌∷◌, ◌++◌, str_eq,
  eq_iff, arith, filter_rows, if◌then◌else◌, Bool-cases, inl, inr,
}
use mathlib.Core.Path.{ap₂}
use bukia_hft.Base.Int.{ℤ, pos, ◌+ℤ◌, ◌-ℤ◌, int_laws}
use bukia_hft.Base.Groups.{sum_where, sum-group_by}
use bukia_hft.Db.{Db, LedgerEntryType, credit, debit, LedgerEntry, Wallet}
use bukia_hft.Repositories.Ledger.{same_type, signed, balance_of, get_balance_for_wallet}
use bukia_hft.Repositories.Ledger.Statistics.{
  Joined, with_wallets, inner_join, of_user, joined_for_user, Totals, first_total, add_total,
  TypeCurrency, same_type_currency, type_currency,
  get_credits_debits_breakdown_by_currency_for_user,
}

pub sum_where-append :
    {A : Type 0} (test : A → Bool) (value : A → ℤ) (xs ys : List A)
    → sum_where test value (xs ++ ys) ≡ sum_where test value xs +ℤ sum_where test value ys
unfolding sum_where
sum_where-append test value [] ys = omega int_laws
sum_where-append test value (x ∷ xs) ys = rw (sum_where-append test value xs ys) (omega int_laws)

pub sum_where-add :
    {A : Type 0} (test : A → Bool) (f g h : A → ℤ) (xs : List A)
    → ((x : A) → h x ≡ f x +ℤ g x)
    → sum_where test h xs ≡ sum_where test f xs +ℤ sum_where test g xs
unfolding sum_where
sum_where-add test f g h [] e = omega int_laws
sum_where-add test f g h (x ∷ xs) e = elim (Bool-cases (test x)) [
  | inl passes ↦ rw (passes, e x, sum_where-add test f g h xs e) (omega int_laws)
  | inr fails ↦ rw (fails, sum_where-add test f g h xs e) (omega int_laws)
]

-- A user's rows in one currency.
abbrev pub owned_in : ℕ → String → Wallet → Bool
owned_in user_id currency w = w.user_id == user_id && str_eq w.currency currency

abbrev pub signed_amount : Joined → ℤ
signed_amount j = signed j.entry.type j.entry.amount

-- What an entry is worth to a wallet.
abbrev share : LedgerEntry → Wallet → ℤ
share e w = if e.wallet_id == w.id then signed e.type e.amount else pos 0

sum_where-zero :
    {A : Type 0} (test : A → Bool) (xs : List A) → sum_where test (λ x. pos 0) xs ≡ pos 0
unfolding sum_where
sum_where-zero test [] = refl
sum_where-zero test (x ∷ xs) = elim (Bool-cases (test x)) [
  | inl passes ↦ rw (passes, sum_where-zero test xs) (omega int_laws)
  | inr fails ↦ rw (fails, sum_where-zero test xs) (omega int_laws)
]

-- One more entry of a ledger.
share-balance :
    (e : LedgerEntry) (es : List LedgerEntry) (w : Wallet)
    → balance_of w.id (e ∷ es) ≡ share e w +ℤ balance_of w.id es
unfolding balance_of
share-balance e es w = elim (Bool-cases (e.wallet_id == w.id)) [
  | inl own ↦ rw own refl
  | inr other ↦ rw other (omega int_laws)
]

one_entry :
    (t : LedgerEntryType) (v : ℤ) (b : Bool)
    → (if same_type t credit && b then v else pos 0)
        -ℤ (if same_type t debit && b then v else pos 0)
      ≡ (if b then signed t v else pos 0)
one_entry credit v true = omega int_laws
one_entry credit v false = omega int_laws
one_entry debit v true = omega int_laws
one_entry debit v false = omega int_laws

pub sum_where-filter :
    {A : Type 0} (p test : A → Bool) (value : A → ℤ) (xs : List A)
    → sum_where test value (filter_rows p xs) ≡ sum_where (λ x. p x && test x) value xs
unfolding sum_where filter_rows
sum_where-filter p test value [] = refl
sum_where-filter p test value (x ∷ xs) = elim (Bool-cases (p x)) [
  | inl passes ↦ rw (passes, sum_where-filter p test value xs) refl
  | inr fails ↦ rw (fails, sum_where-filter p test value xs) (omega int_laws)
]

module _ (currency : String) where
  abbrev key_is : LedgerEntryType → TypeCurrency → Bool
  key_is type (t, c) = same_type t type && str_eq c currency

  key_is-same :
      (type : LedgerEntryType) (j k : TypeCurrency)
      → same_type_currency j k ≡ true
      → key_is type j ≡ key_is type k
  key_is-same type (credit, c) (credit, d) h = rw ((eq_iff c d).0 h) refl
  key_is-same type (debit, c) (debit, d) h = rw ((eq_iff c d).0 h) refl
  key_is-same type (credit, c) (debit, d) h = cc
  key_is-same type (debit, c) (credit, d) h = cc

  -- The total of the group of a type and the currency.
  abbrev pub total_of : LedgerEntryType → List (TypeCurrency × Totals) → ℤ
  total_of type =
      sum_where (λ ((k, t) : TypeCurrency × Totals). key_is type k)
        (λ ((k, t) : TypeCurrency × Totals). t.total)

module _ (user_id : ℕ) (currency : String) where
  abbrev joined_in : Joined → Bool
  joined_in j = owned_in user_id currency j.wallet

  sum-with_wallets :
      (e : LedgerEntry) (ws : List Wallet)
      → sum_where joined_in signed_amount (with_wallets e ws)
        ≡ sum_where (owned_in user_id currency) (share e) ws
  unfolding sum_where
  sum-with_wallets e [] = refl
  sum-with_wallets e (w ∷ ws) = elim (Bool-cases (w.id == e.wallet_id)) [
    | inl own ↦
        let own' : (e.wallet_id == w.id) ≡ true = ground arith in
        rw (own, own', sum-with_wallets e ws) refl
    | inr other ↦
        let other' : (e.wallet_id == w.id) ≡ false = ground arith in
        elim (Bool-cases (owned_in user_id currency w)) [
          | inl passes ↦ rw (other, other', passes, sum-with_wallets e ws) (omega int_laws)
          | inr fails ↦ rw (other, fails, sum-with_wallets e ws) (omega int_laws)
        ]
  ]

  -- Over the join the signed amounts add up to the balances of the wallets.
  sum-inner_join :
      (es : List LedgerEntry) (ws : List Wallet)
      → sum_where joined_in signed_amount (inner_join es ws)
        ≡ sum_where (owned_in user_id currency) (λ w. balance_of w.id es) ws
  unfolding inner_join balance_of sum_where
  sum-inner_join [] ws = sym (sum_where-zero (owned_in user_id currency) ws)
  sum-inner_join (e ∷ es) ws =
      sum_where-append joined_in signed_amount (with_wallets e ws) (inner_join es ws)
      ∙ ap₂ ◌+ℤ◌ (sum-with_wallets e ws) (sum-inner_join es ws)
      ∙ sym (
          sum_where-add (owned_in user_id currency) (share e) (λ w. balance_of w.id es)
            (λ w. balance_of w.id (e ∷ es)) ws (λ w. share-balance e es w))

  -- The credits less the debits of the rows are their signed sum.
  credits_less_debits :
      (js : List Joined)
      → sum_where (λ j. key_is currency credit (type_currency j)) (λ j. j.entry.amount) js
          -ℤ sum_where (λ j. key_is currency debit (type_currency j)) (λ j. j.entry.amount) js
        ≡ sum_where (λ j. str_eq j.wallet.currency currency) signed_amount js
  unfolding sum_where
  credits_less_debits [] = omega int_laws
  credits_less_debits (j ∷ js) =
      let one = one_entry j.entry.type j.entry.amount (str_eq j.wallet.currency currency) in
      rw (← credits_less_debits js, ← one) (omega int_laws)

  total_of_rows :
      (type : LedgerEntryType) (db : Db)
      → total_of currency type (get_credits_debits_breakdown_by_currency_for_user user_id db)
        ≡ sum_where
            (λ j. key_is currency type (type_currency j))
            (λ j. j.entry.amount)
            (joined_for_user user_id db)
  unfolding get_credits_debits_breakdown_by_currency_for_user
  total_of_rows type db =
      sum-group_by same_type_currency type_currency first_total add_total (key_is currency type)
        (λ j. j.entry.amount) (λ t. t.total) (key_is-same currency type) (λ r. refl) (λ r a. refl)
        (joined_for_user user_id db)

  -- For every currency, a user's total of credits less the total of debits is the sum of the balances of
  -- the user's wallets in the currency.
  pub breakdown_balances :
      (db : Db)
      → let rows = get_credits_debits_breakdown_by_currency_for_user user_id db in
        total_of currency credit rows -ℤ total_of currency debit rows
        ≡ sum_where (owned_in user_id currency) (λ w. get_balance_for_wallet w.id db) db.wallets
  unfolding get_balance_for_wallet joined_for_user
  breakdown_balances db =
      let joined = inner_join db.ledger db.wallets in
      ap₂ ◌-ℤ◌ (total_of_rows credit db) (total_of_rows debit db)
      ∙ credits_less_debits (joined_for_user user_id db)
      ∙ sum_where-filter (of_user user_id) (λ j. str_eq j.wallet.currency currency) signed_amount
          joined
      ∙ sum-inner_join db.ledger db.wallets
