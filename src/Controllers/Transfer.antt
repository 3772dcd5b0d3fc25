-- ===== src/Controllers/Transfer.antt =====
-- controllers/transfer.controller.ts and routes/transfer.routes.ts. BullMQ gives a job its id.
use bukia_hft.Base.{
  ◌≡◌, ◌≢◌, refl, sym, ap, ◌∙◌, ◌⊎◌, inl, inr, ⊤, ℕ, String, Option, none, some, List, [], ◌∷◌,
  ◌++◌, arith, Option-cases,
}
use bukia_hft.Db.{Wallet}
use bukia_hft.Tx.{Error, Result, Result-cases, ok, err, null_access}
use bukia_hft.Redis.{Redis}
use bukia_hft.Platform.{Platform}
use bukia_hft.Http.{error_handler, status_code}
use bukia_hft.Auth.{Request, JwtUserPayload, authenticate_jwt}
use bukia_hft.Repositories.Wallet
use bukia_hft.TransferService.{Payload}
use bukia_hft.TransferService.Enqueue.{Api, enqueue_transfer}
use bukia_hft.TransferService.Admission.{Admits, Refuses, enqueue-Admits_or_Refuses}
use bukia_hft.Controllers.{
  Body, job_body, Answer, answer_status, Server, fails, responds, authenticated_by,
}

-- What `TransferRequestSchema` keeps of a body.
pub record TransferRequest : Type 0 where
  pub amount : String
  pub from_wallet_id : ℕ
  pub idempotency_key : String
  pub metadata : Option String
  pub to_wallet_id : ℕ
  pub tx_id : Option String

-- `{ ...req.body, userId: req.user.id }`; the currency is not there yet.
abbrev pub payload_from : TransferRequest → ℕ → Payload
payload_from body user_id = record {
  amount = body.amount;
  currency = "";
  from_wallet_id = body.from_wallet_id;
  idempotency_key = body.idempotency_key;
  metadata = body.metadata;
  to_wallet_id = body.to_wallet_id;
  tx_id = body.tx_id;
  user_id = user_id;
}

module _ (r : Redis) (server : Server r) (platform : Platform)
    (job_id : List Payload → String) where
  unfoldable pub create_transfer_route : TransferRequest → Request → Api → Answer × Api
  unfolding responds enqueue_transfer fails
  create_transfer_route body req s = elim req.user [
    | none ↦ fails r server null_access s
    | some user ↦
        responds r server 202 (λ t. "Transfer queued") (λ t. job_body (job_id s.jobs))
          (enqueue_transfer platform (payload_from body user.id) s)
  ]

  unfoldable pub transfer_router : TransferRequest → Request → Api → Answer × Api
  unfolding authenticated_by create_transfer_route
  transfer_router body = authenticated_by r server (λ s. s.db) (create_transfer_route body)

-- No error is answered with 202.
error-ne-accepted : (outside : Error → String) (e : Error) → (error_handler outside e).status ≢ 202
unfolding error_handler status_code
error-ne-accepted outside e h = ground arith

module _ (r : Redis) (server : Server r) where
  fails-ne-accepted : {S : Type 0} (e : Error) (s : S) → answer_status (fails r server e s).0 ≢ 202
  unfolding fails
  fails-ne-accepted e s = error-ne-accepted server.outside e

  module _ {A S : Type 0} (message : A → String) (body : A → Body) where
    responds-accepted :
        (q : Result A × S) (a : A)
        → q.0 ≡ ok a
        → answer_status (responds r server 202 message body q).0 ≡ 202
    unfolding responds
    responds-accepted (ok b, s) a h = refl
    responds-accepted (err e, s) a h = absurd cc

    responds-refused :
        (q : Result A × S)
        → ((a : A) → q.0 ≢ ok a)
        → answer_status (responds r server 202 message body q).0 ≢ 202
    unfolding responds
    responds-refused (ok b, s) h = absurd (h b refl)
    responds-refused (err e, s) h = fails-ne-accepted e s

    responds_leaves : (q : Result A × S) → (responds r server 202 message body q).1 ≡ q.1
    unfolding responds fails
    responds_leaves (ok b, s) = refl
    responds_leaves (err e, s) = refl

module _ (r : Redis) (server : Server r) (platform : Platform) (job_id : List Payload → String)
    (body : TransferRequest) (req : Request) (s : Api) where
  abbrev answered : Answer × Api
  answered = transfer_router r server platform job_id body req s

  -- The request is taken: the token is that of the owner of the source wallet, and one job is added.
  pub record IsQueued : Type 0 where
    pub passed : Request
    pub accepted : authenticate_jwt server.crypto req s.db ≡ ok passed
    pub payload : JwtUserPayload
    pub who : passed.user ≡ some payload
    pub wallet : Wallet
    pub found : Wallet.find_by_id body.from_wallet_id s.db ≡ some wallet
    pub owner : wallet.user_id ≡ payload.id
    pub status : answer_status answered.0 ≡ 202
    pub queued :
        answered.1.jobs
        ≡ s.jobs ++ record (payload_from body payload.id) { currency = wallet.currency } ∷ []

  pub record IsNotQueued : Type 0 where
    pub status : answer_status answered.0 ≢ 202
    pub unchanged : answered.1.jobs ≡ s.jobs

  refused_by : (e : Error) → answered ≡ fails r server e s → IsNotQueued
  unfolding fails
  refused_by e same = record {
    status = λ h. fails-ne-accepted r server e s (sym (ap (λ o. answer_status o.0) same) ∙ h);
    unchanged = ap (λ o. o.1.jobs) same;
  }

  by_queue :
      (passed : Request) (p : JwtUserPayload)
      → authenticate_jwt server.crypto req s.db ≡ ok passed
      → passed.user ≡ some p
      → Admits platform (payload_from body p.id) s ⊎ Refuses platform (payload_from body p.id) s
      → IsQueued ⊎ IsNotQueued
  unfolding transfer_router
  by_queue passed p accepted who cases =
      let message : ⊤ → String = λ t. "Transfer queued" in
      let data_of : ⊤ → Body = λ t. job_body (job_id s.jobs) in
      let run = enqueue_transfer platform (payload_from body p.id) s in
      let same : answered ≡ responds r server 202 message data_of run =
        rw (transfer_router, authenticated_by, accepted, create_transfer_route, who) refl in
      let left =
        ap (λ o. o.1.jobs) same
        ∙ ap (λ (a : Api). a.jobs) (responds_leaves r server message data_of run) in
      let status = ap (λ o. answer_status o.0) same in
      elim cases [
        | inl (admitted, w, found, owner, queued) ↦ inl (record {
          passed = passed;
          accepted = accepted;
          payload = p;
          who = who;
          wallet = w;
          found = found;
          owner = owner;
          status = status ∙ responds-accepted r server message data_of run tt admitted;
          queued = left ∙ queued;
        })
        | inr (refused, stays) ↦ inr (record {
          status =
              λ h. responds-refused r server message data_of run (λ t. refused) (sym status ∙ h);
          unchanged = left ∙ stays;
        })
      ]

  -- Every request to POST /transfer is taken or refused. It is answered with 202 only if its token is accepted
  -- and belongs to the owner of the source wallet, and then one job is added, in the name of this user and
  -- with the currency of the wallet, whatever else the body holds. Otherwise it adds no job.
  pub transfer_requests_are_own : IsQueued ⊎ IsNotQueued
  unfolding transfer_router fails
  transfer_requests_are_own = elim (Result-cases (authenticate_jwt server.crypto req s.db)) [
    | inl (e, refused) ↦ inr (refused_by e (rw (transfer_router, authenticated_by, refused) refl))
    | inr (passed, accepted) ↦ elim (Option-cases passed.user) [
      | inl nobody ↦ inr (
          refused_by null_access
            (rw (transfer_router, authenticated_by, accepted, create_transfer_route, nobody) refl))
      | inr (p, who) ↦
          by_queue passed p accepted who
            (enqueue-Admits_or_Refuses platform (payload_from body p.id) s)
    ]
  ]
