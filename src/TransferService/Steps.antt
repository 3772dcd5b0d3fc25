-- ===== src/TransferService/Steps.antt =====
-- What the steps of a transfer's transaction have done when they return.
use bukia_hft.Base.{◌≡◌, sym, ap, ◌∙◌, ⊤, ℕ, false, some, arith, Option-cases, inl, inr, ◌≢◌}
use bukia_hft.Base.Int.{ℤ, pos, ◌<ℤ◌}
use bukia_hft.Db.{Db, Wallet}
use bukia_hft.Tx.{ok, TxState}
use mathlib.Core.Path.{subst}
use bukia_hft.Tx.Inversion.{>>=-eq-ok}
use bukia_hft.Platform.{Platform}
use bukia_hft.Repositories.Ledger
use bukia_hft.Repositories.Wallet
use bukia_hft.TransferService.{
  Payload, assert_user_owns_wallet, validate_transfer_request, get_wallets, update_wallet_versions,
  lt_number, check_funds,
}

-- The facts that `validateTransferRequest` has established.
pub record IsValidated (platform : Platform) (p : Payload) (db : Db) : Type 0 where
  pub wallet : Wallet
  pub found : Wallet.find_by_id p.from_wallet_id db ≡ some wallet
  pub owner : wallet.user_id ≡ p.user_id
  pub amount : ℤ
  pub parsed : platform.parse_float p.amount ≡ some amount
  pub positive : pos 0 <ℤ amount
  pub covered :
      lt_number
        (platform.parse_float
          (platform.numeric_text (Ledger.get_balance_for_wallet p.from_wallet_id db)))
        (some amount)
      ≡ false

assert_user_owns_wallet-eq-ok :
    (user_id wallet_id : ℕ) (s : TxState) (a : ⊤) (t : TxState)
    → assert_user_owns_wallet user_id wallet_id s ≡ (ok a, t)
    → (t ≡ s) × (w : Wallet) × (Wallet.find_by_id wallet_id s.work ≡ some w) × (w.user_id ≡ user_id)
unfolding assert_user_owns_wallet
assert_user_owns_wallet-eq-ok user_id wallet_id s a t h =
    elim (Option-cases (Wallet.find_by_id wallet_id s.work)) [
      | inl missing ↦ absurd (ground arith)
      | inr (w, found) ↦ (ground arith, w, found, ground arith)
    ]

check_funds-eq-ok :
    (platform : Platform) (p : Payload) (s : TxState) (a : ⊤) (t : TxState)
    → check_funds platform p s ≡ (ok a, t)
    → (t ≡ s)
      × (s.aborted ≡ false)
      × (n : ℤ) × (platform.parse_float p.amount ≡ some n)
      × (pos 0 <ℤ n)
      × (lt_number
            (platform.parse_float
              (platform.numeric_text (Ledger.get_balance_for_wallet p.from_wallet_id s.work)))
            (some n)
          ≡ false)
unfolding check_funds
check_funds-eq-ok platform p s a t h = elim (Option-cases (platform.parse_float p.amount)) [
  | inl nan ↦ absurd (ground arith)
  | inr (n, parsed) ↦ (ground arith, ground arith, n, parsed, ground arith, ground arith)
]

pub validate_transfer_request-eq-ok :
    (platform : Platform) (p : Payload) (s : TxState) (a : ⊤) (t : TxState)
    → validate_transfer_request platform p s ≡ (ok a, t)
    → (t ≡ s) × (s.aborted ≡ false) × IsValidated platform p s.work
unfolding validate_transfer_request
validate_transfer_request-eq-ok platform p s a t h =
    let (_, u, owned, checked) =
      >>=-eq-ok (assert_user_owns_wallet p.user_id p.from_wallet_id) (λ _. check_funds platform p) s
        h in
    let (same, w, found, owner) =
      assert_user_owns_wallet-eq-ok p.user_id p.from_wallet_id s tt u owned in
    let (same', live, n, parsed, positive, covered) = check_funds-eq-ok platform p u a t checked in
    (
      same' ∙ same,
      ap (λ r. r.aborted) (sym same) ∙ live,
      record {
        wallet = w;
        found = found;
        owner = owner;
        amount = n;
        parsed = parsed;
        positive = positive;
        covered =
            subst
              (λ r.
                lt_number
                  (platform.parse_float
                    (platform.numeric_text (Ledger.get_balance_for_wallet p.from_wallet_id r.work)))
                  (some n)
                ≡ false)
              same covered;
      },
    )

pub get_wallets-eq-ok :
    (from to : ℕ) (s : TxState) (ws : Wallet × Wallet) (t : TxState)
    → get_wallets from to s ≡ (ok ws, t)
    → (t ≡ s)
      × (Wallet.find_by_id from s.work ≡ some ws.0)
      × (Wallet.find_by_id to s.work ≡ some ws.1)
unfolding get_wallets
get_wallets-eq-ok from to s ws t h = (ground arith, ground arith, ground arith)

update_wallet_versions-eq-ok :
    (f g : Wallet) (s : TxState) (a : ⊤) (t : TxState)
    → update_wallet_versions f g s ≡ (ok a, t)
    → let first = Wallet.increment_version_if_match f.id f.version s.work in
      let second = Wallet.increment_version_if_match g.id g.version first.1 in
      (first.0 ≢ 0) × (second.0 ≢ 0) × (t ≡ record s { work = second.1 })
unfolding update_wallet_versions
update_wallet_versions-eq-ok f g s a t h = (ground arith, ground arith, ground arith)
