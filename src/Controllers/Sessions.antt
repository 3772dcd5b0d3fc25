-- ===== src/Controllers/Sessions.antt =====
-- A logout over the routes (routes/auth.routes.ts), and the routes of the administrators after it.
use bukia_hft.Base.{
  ◌≡◌, refl, sym, ap, ◌∙◌, ℕ, ◌==◌, String, true, some, arith, Option-cases, List, inl, inr,
}
use Prim.Native.String.{◌++◌}
use bukia_hft.Db.{Db, User}
use bukia_hft.Tx.{Result, Result-cases, ok, err, unauthorized}
use bukia_hft.Redis.{Redis, Session}
use bukia_hft.Repositories.User.{find_by_id}
use bukia_hft.Auth.{
  Crypto, Request, JwtUserPayload, authenticate_jwt, authenticate_token, read_token, current_user,
  bearer,
}
use bukia_hft.Auth.Header.{remove_first-bearer, bearer_filled}
use bukia_hft.Auth.Service.{logout, refresh_token}
use bukia_hft.Auth.Revoked.{IsRevoked, logout-IsRevoked}
use mathlib.Core.Path.{subst}
use bukia_hft.Controllers.Access.{
  IsTurnedAway, authenticate_jwt-eq-err, fails_status, admin_routes_are_guarded,
  authenticated_by-refused,
}
use bukia_hft.Controllers.{
  Body, no_data, tokens_body, answer_status, Server, fails, responds, authenticated,
  authenticated_by,
}
use bukia_hft.Controllers.AdminUser.{AdminCall, on_db}
use bukia_hft.Controllers.Customers.{CustomerCall, Reports, customer_controller, customer_router}
use bukia_hft.Controllers.Transfer.{TransferRequest, create_transfer_route, transfer_router}
use bukia_hft.Platform.{Platform}
use bukia_hft.TransferService.{Payload}
use bukia_hft.TransferService.Enqueue.{Api}
use bukia_hft.Controllers.Auth.{refresh, log_out, logout_user, refresh_route, auth_router}

authenticate_jwt-bearer :
    (c : Crypto) (token : String) (req : Request) (db : Db)
    → req.authorization ≡ some (bearer ++ token)
    → authenticate_jwt c req db ≡ authenticate_token c token req db
unfolding authenticate_jwt
authenticate_jwt-bearer c token req db given =
    ground (arith, given, bearer_filled token, remove_first-bearer token)

-- A token that is accepted is that of a user whose version it has.
record IsAccepted (c : Crypto) (token : String) (req passed : Request) (db : Db) : Type 0 where
  payload : JwtUserPayload
  who : passed.user ≡ some payload
  verified : c.verify db.now token ≡ some payload
  row : User
  found : find_by_id payload.id db ≡ some row
  current : (row.jwt_version == payload.jwt_version) ≡ true

authenticate_token-eq-ok :
    (c : Crypto) (token : String) (req passed : Request) (db : Db)
    → authenticate_token c token req db ≡ ok passed
    → IsAccepted c token req passed db
unfolding authenticate_token read_token current_user
authenticate_token-eq-ok c token req passed db h = elim (Option-cases (c.verify db.now token)) [
  | inl bad ↦ absurd (ground arith)
  | inr (p, verified) ↦ elim (Option-cases (find_by_id p.id db)) [
    | inl missing ↦ absurd (ground arith)
    | inr (u, found) ↦ record {
      payload = p;
      who = ground arith;
      verified = verified;
      row = u;
      found = found;
      current = ground arith;
    }
  ]
]

module _ (r : Redis) (server : Server r) where
  pub responds_state :
      {A : Type 0} (status : ℕ) (message : A → String) (body : A → Body) (q : Result A × Session r)
      → (responds r server status message body q).1 ≡ q.1
  unfolding responds fails
  responds_state status message body (ok a, s) = refl
  responds_state status message body (err e, s) = refl

  logout_user-db :
      (req : Request) (p : JwtUserPayload) (s : Session r)
      → req.user ≡ some p
      → (logout_user r server req s).1.db ≡ (logout p.id s.db).1
  unfolding logout_user
  logout_user-db req p s who =
      rw (logout_user, who)
        (ap (λ (s : Session r). s.db)
          (responds_state 200 (λ t. "Logout successful") (λ t. no_data) (on_db r (logout p.id) s)))

  logged_out :
      (token : String) (req : Request) (s : Session r)
      → req.authorization ≡ some (bearer ++ token)
      → answer_status (auth_router r server log_out req s).0 ≡ 200
      → IsRevoked server.crypto token (auth_router r server log_out req s).1.db
  unfolding auth_router authenticated authenticated_by
  logged_out token req s given done =
      let c = server.crypto in
      let same = authenticate_jwt-bearer c token req s.db given in
      elim (Result-cases (authenticate_jwt c req s.db)) [
        | inl (e, refused) ↦
            let failed =
              fails_status r server e 401 s (authenticate_jwt-eq-err c req s.db e refused) in
            let answered = rw (auth_router, authenticated, authenticated_by, refused) at done in
            absurd (omega (arith, failed, answered))
        | inr (passed, accepted) ↦
            let i = authenticate_token-eq-ok c token req passed s.db (sym same ∙ accepted) in
            let (left, revoked) =
              logout-IsRevoked c token i.payload i.row s.db i.found i.verified
                (ground (arith, i.current)) in
            let after = logout_user-db passed i.payload s i.who in
            rw (auth_router, authenticated, authenticated_by, accepted)
              (subst (IsRevoked c token) (sym after) revoked)
      ]

module _ (r : Redis) (server : Server r) (reports : Reports r) (platform : Platform)
    (job_id : List Payload → String) where
  -- Let a logout with a token be answered with 200. Then a request with this token to any route of the
  -- administrators, of the customers or of transfers is answered with 401 or 403, by the latter two with 401,
  -- and changes nothing and queues nothing; and a request for new tokens by it is answered with 401 and
  -- changes nothing.
  pub logout_ends_session :
      (token : String) (req later anyone : Request) (call : AdminCall) (own : CustomerCall)
      (body : TransferRequest) (jobs : List Payload) (s : Session r)
      → req.authorization ≡ some (bearer ++ token)
      → answer_status (auth_router r server log_out req s).0 ≡ 200
      → later.authorization ≡ some (bearer ++ token)
      → let after = (auth_router r server log_out req s).1 in
        let renewal = auth_router r server (refresh token) anyone after in
        let visit = customer_router r server reports own later after in
        let api : Api = record { db = after.db; jobs = jobs } in
        let order = transfer_router r server platform job_id body later api in
        IsTurnedAway r server call later after
        × ((answer_status visit.0 ≡ 401) × (visit.1 ≡ after))
        × ((answer_status order.0 ≡ 401) × (order.1 ≡ api))
        × (answer_status renewal.0 ≡ 401)
        × (renewal.1 ≡ after)
  unfolding auth_router refresh_route customer_router authenticated transfer_router
  logout_ends_session token req later anyone call own body jobs s given done same_token =
      let after = (auth_router r server log_out req s).1 in
      let api : Api = record { db = after.db; jobs = jobs } in
      let revoked = logged_out r server token req s given done in
      let (why, refused) = revoked.no_access later in
      let (why', not_renewed) = revoked.no_refresh in
      let no_entry : authenticate_jwt server.crypto later after.db ≡ err (unauthorized why) =
        authenticate_jwt-bearer server.crypto token later after.db same_token ∙ refused in
      (
        elim (admin_routes_are_guarded r server call later after) [
          | inr away ↦ away
          | inl through ↦ absurd (cc (through.accepted, no_entry))
        ],
        authenticated_by-refused r server (λ (s : Session r). s.db)
            (customer_controller r server reports own) later after (unauthorized why) no_entry,
        authenticated_by-refused r server (λ (s : Api). s.db)
            (create_transfer_route r server platform job_id body) later api (unauthorized why)
            no_entry,
        rw not_renewed (fails_status r server (unauthorized why') 401 after refl),
        responds_state r server 200 (λ t. "Access Token Refreshed Sucessfully") tokens_body
            (refresh_token server.crypto token after.db, after),
      )
