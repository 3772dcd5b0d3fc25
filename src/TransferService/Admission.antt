-- ===== src/TransferService/Admission.antt =====
-- Which requests `enqueueTransfer` admits.
use bukia_hft.Base.{
  ◌≡◌, refl, sym, ap, ◌∙◌, ⊤, ◌⊎◌, ◌<◌, String, true, false, none, some, arith, ◌↔◌, ◌≢◌, [], ◌∷◌,
  ◌++◌, inl, inr, Option-cases, Bool-cases,
}
use mathlib.Core.Path.{ap₂}
use native.Mathlib.Decide.{ℕ_discrete}
use Prim.Native.Char.{Char, code}
use bukia_hft.Db.{Db, Wallet}
use bukia_hft.Tx.{Error, bad_request, Result, ok, err}
use bukia_hft.Platform.{Platform}
use bukia_hft.Repositories.Wallet
use bukia_hft.TransferService.{Payload}
use bukia_hft.TransferService.Enqueue.{
  lt_text, Api, handle_idempotency_for_enqueue, enqueue_transfer,
}

lt_text_first :
    (c d : Char) (s t : String)
    → code c ≢ code d
    → (lt_text (String.◌∷◌ c s) (String.◌∷◌ d t) ≡ true) ↔ (code c < code d)
lt_text_first c d s t h = (λ e. ground arith, λ e. ground arith)

-- The idempotency check never reports missing funds.
handle_idempotency-ne-funds :
    (key : String) (db : Db)
    → (handle_idempotency_for_enqueue key db).0 ≢ err (bad_request "Insufficient funds")
unfolding handle_idempotency_for_enqueue
handle_idempotency-ne-funds key db h = ground arith

-- Past the checks of owner and funds, the outcome is that of the idempotency check.
module _ (platform : Platform) (p : Payload) (s : Api) (w : Wallet)
    (found : Wallet.find_by_id p.from_wallet_id s.db ≡ some w) (owner : w.user_id ≡ p.user_id)
    (funded : lt_text (platform.numeric_text (Wallet.get_balance p.from_wallet_id s.db)) p.amount
      ≡ false) where
  enqueue-admitted :
      (db' : Db)
      → handle_idempotency_for_enqueue p.idempotency_key s.db ≡ (ok tt, db')
      → enqueue_transfer platform p s
        ≡ (ok tt, record { db = db'; jobs = s.jobs ++ record p { currency = w.currency } ∷ [] })
  unfolding enqueue_transfer
  enqueue-admitted db' h = ground arith

  enqueue-stopped :
      (e : Error) (db' : Db)
      → handle_idempotency_for_enqueue p.idempotency_key s.db ≡ (err e, db')
      → enqueue_transfer platform p s ≡ (err e, record s { db = db' })
  unfolding enqueue_transfer
  enqueue-stopped e db' h = ground arith

enqueue-unfunded :
    (platform : Platform) (p : Payload) (s : Api) (w : Wallet)
    → Wallet.find_by_id p.from_wallet_id s.db ≡ some w
    → w.user_id ≡ p.user_id
    → lt_text (platform.numeric_text (Wallet.get_balance p.from_wallet_id s.db)) p.amount ≡ true
    → enqueue_transfer platform p s ≡ (err (bad_request "Insufficient funds"), s)
unfolding enqueue_transfer
enqueue-unfunded platform p s w found owner short = ground arith

enqueue-not_owner :
    (platform : Platform) (p : Payload) (s : Api) (w : Wallet)
    → Wallet.find_by_id p.from_wallet_id s.db ≡ some w
    → w.user_id ≢ p.user_id
    → enqueue_transfer platform p s ≡ (err (bad_request "User is not the owner of wallet"), s)
unfolding enqueue_transfer
enqueue-not_owner platform p s w found other = ground arith

enqueue-missing :
    (platform : Platform) (p : Payload) (s : Api)
    → Wallet.find_by_id p.from_wallet_id s.db ≡ none
    → enqueue_transfer platform p s ≡ (err (bad_request "User is not the owner of wallet"), s)
unfolding enqueue_transfer
enqueue-missing platform p s missing = ground arith

-- For the owner of the wallet, where the text of the balance and that of the amount begin with
-- different characters, the request is refused for missing funds exactly when the first character of
-- the balance has the smaller code, whatever the numbers and the lengths of the texts are.
pub enqueue_decides_by_first_character :
    (platform : Platform) (p : Payload) (s : Api) (w : Wallet) (c d : Char) (b a : String)
    → Wallet.find_by_id p.from_wallet_id s.db ≡ some w
    → w.user_id ≡ p.user_id
    → platform.numeric_text (Wallet.get_balance p.from_wallet_id s.db) ≡ String.◌∷◌ c b
    → p.amount ≡ String.◌∷◌ d a
    → code c ≢ code d
    → ((enqueue_transfer platform p s).0 ≡ err (bad_request "Insufficient funds"))
      ↔ (code c < code d)
enqueue_decides_by_first_character platform p s w c d b a found owner printed amount differ =
    let shown = platform.numeric_text (Wallet.get_balance p.from_wallet_id s.db) in
    let texts : lt_text shown p.amount ≡ lt_text (String.◌∷◌ c b) (String.◌∷◌ d a) =
      ap₂ lt_text printed amount in
    let (to, from) = lt_text_first c d b a differ in
    (
      λ e. elim (Bool-cases (lt_text shown p.amount)) [
        | inl short ↦ to (sym texts ∙ short)
        | inr funded ↦ absurd (
            go funded (handle_idempotency_for_enqueue p.idempotency_key s.db) refl
              (handle_idempotency-ne-funds p.idempotency_key s.db) e)
      ],
      λ lt.
          ap (λ (q : Result ⊤ × Api). q.0)
            (enqueue-unfunded platform p s w found owner (texts ∙ from lt)),
    )
  where
    go :
        lt_text (platform.numeric_text (Wallet.get_balance p.from_wallet_id s.db)) p.amount ≡ false
        → (q : Result ⊤ × Db) → handle_idempotency_for_enqueue p.idempotency_key s.db ≡ q
        → (handle_idempotency_for_enqueue p.idempotency_key s.db).0
          ≢ err (bad_request "Insufficient funds")
        → (enqueue_transfer platform p s).0 ≢ err (bad_request "Insufficient funds")
    go funded (ok _, d') i n e = cc (
      e,
      ap (λ (q : Result ⊤ × Api). q.0) (enqueue-admitted platform p s w found owner funded d' i),
    )
    go funded (err x, d') i n e = n (
        ap (λ (q : Result ⊤ × Db). q.0) i
        ∙ sym (
            ap (λ (q : Result ⊤ × Api). q.0)
              (enqueue-stopped platform p s w found owner funded x d' i))
        ∙ e)

-- What a request does to the queue: it is admitted, and one job with the currency of the owner's
-- wallet is added, or it is refused, and the queue stays.
abbrev pub Admits : Platform → Payload → Api → Type 0
Admits platform p s =
    ((enqueue_transfer platform p s).0 ≡ ok tt)
    × (w : Wallet) × (Wallet.find_by_id p.from_wallet_id s.db ≡ some w)
    × (w.user_id ≡ p.user_id)
    × ((enqueue_transfer platform p s).1.jobs ≡ s.jobs ++ record p { currency = w.currency } ∷ [])

abbrev pub Refuses : Platform → Payload → Api → Type 0
Refuses platform p s =
    ((enqueue_transfer platform p s).0 ≢ ok tt) × ((enqueue_transfer platform p s).1.jobs ≡ s.jobs)

refuses :
    (platform : Platform) (p : Payload) (s : Api) (e : Error) (db' : Db)
    → enqueue_transfer platform p s ≡ (err e, record s { db = db' })
    → Refuses platform p s
refuses platform p s e db' h =
    (λ k. cc (k, ap (λ (q : Result ⊤ × Api). q.0) h), ap (λ (q : Result ⊤ × Api). q.1.jobs) h)

-- Every request is admitted or refused: an admitted one comes from the owner of the source wallet and
-- adds exactly one job, with the currency of that wallet; a refused one adds none.
pub enqueue-Admits_or_Refuses :
    (platform : Platform) (p : Payload) (s : Api) → Admits platform p s ⊎ Refuses platform p s
enqueue-Admits_or_Refuses platform p s =
    elim (Option-cases (Wallet.find_by_id p.from_wallet_id s.db)) [
      | inl missing ↦ inr (refuses platform p s _ s.db (enqueue-missing platform p s missing))
      | inr (w, found) ↦ elim (ℕ_discrete w.user_id p.user_id) [
        | no other ↦
            inr (refuses platform p s _ s.db (enqueue-not_owner platform p s w found other))
        | yes owner ↦
            elim (Bool-cases (
              lt_text (platform.numeric_text (Wallet.get_balance p.from_wallet_id s.db))
                p.amount)) [
                  | inl short ↦ inr (
                      refuses platform p s _ s.db
                        (enqueue-unfunded platform p s w found owner short))
                  | inr funded ↦
                      go w found owner funded
                        (handle_idempotency_for_enqueue p.idempotency_key s.db) refl
                ]
      ]
    ]
  where
    go :
        (w : Wallet)
        → Wallet.find_by_id p.from_wallet_id s.db ≡ some w
        → w.user_id ≡ p.user_id
        → lt_text (platform.numeric_text (Wallet.get_balance p.from_wallet_id s.db)) p.amount
          ≡ false
        → (q : Result ⊤ × Db) → handle_idempotency_for_enqueue p.idempotency_key s.db ≡ q
        → Admits platform p s ⊎ Refuses platform p s
    go w found owner funded (ok _, d) i =
        let e = enqueue-admitted platform p s w found owner funded d i in
        inl (
          ap (λ (q : Result ⊤ × Api). q.0) e,
          w,
          found,
          owner,
          ap (λ (q : Result ⊤ × Api). q.1.jobs) e,
        )
    go w found owner funded (err x, d) i =
        inr (refuses platform p s x d (enqueue-stopped platform p s w found owner funded x d i))
