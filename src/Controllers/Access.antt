-- ===== src/Controllers/Access.antt =====
-- Who gets through the routes (routes/admin-user.routes.ts, routes/auth.routes.ts).
use bukia_hft.Base.{
  ◌≡◌, ◌≢◌, refl, ap, ◌∙◌, ◌⊎◌, inl, inr, ℕ, String, some, [], ◌∷◌, arith, Option-cases, Bool-cases,
  str_eq,
}
use bukia_hft.Base.Text.{remove_first}
use bukia_hft.Db.{Db, UserRole, admin, super_admin, user}
use bukia_hft.Tx.{Error, Result, Result-cases, ok, err, unauthorized, forbidden}
use bukia_hft.Redis.{Redis, Session}
use bukia_hft.Http.{status_code, error_handler}
use bukia_hft.Auth.{
  Crypto, Request, JwtUserPayload, authenticate_jwt, authenticate_token, current_user, role_guard,
  bearer,
}
use bukia_hft.Controllers.{
  Answer, answer_status, Server, fails, for_roles, authenticated, authenticated_by,
}
use bukia_hft.Controllers.AdminUser.{AdminCall, admin_controller, admin_router}

-- `authenticateJWT` raises one kind of error.
authenticate_token-eq-err :
    (c : Crypto) (token : String) (req : Request) (db : Db) (e : Error)
    → authenticate_token c token req db ≡ err e
    → status_code e ≡ some 401
unfolding authenticate_token current_user status_code
authenticate_token-eq-err c token req db e h = ground arith

pub authenticate_jwt-eq-err :
    (c : Crypto) (req : Request) (db : Db) (e : Error)
    → authenticate_jwt c req db ≡ err e
    → status_code e ≡ some 401
unfolding authenticate_jwt status_code
authenticate_jwt-eq-err c req db e h = elim (Option-cases req.authorization) [
  | inl missing ↦ ground arith
  | inr (header, given) ↦ elim (Bool-cases (str_eq header "")) [
    | inl blank ↦ ground arith
    | inr filled ↦ ground (arith, authenticate_token-eq-err c (remove_first bearer header) req db e)
  ]
]

-- The guard of the routes of administrators.
IsAdminRequest : Request → Type 0
IsAdminRequest req = (p : JwtUserPayload) × (req.user ≡ some p) × (p.role ≢ user)

abbrev IsRefusal : Error → Type 0
IsRefusal e = (status_code e ≡ some 401) ⊎ (status_code e ≡ some 403)

abbrev guard_result : Request → Result Request
guard_result = role_guard (admin ∷ []) ok

guard_cases :
    (req : Request)
    → (IsAdminRequest req × (guard_result req ≡ ok req))
      ⊎ ((e : Error) × (guard_result req ≡ err e) × IsRefusal e)
unfolding IsAdminRequest role_guard status_code
guard_cases req = elim (Option-cases req.user) [
  | inl nobody ↦ inr (unauthorized "User not authenticated", rw nobody refl, inl refl)
  | inr (p, there) ↦ by_role p there p.role refl
]
  where
    by_role :
        (p : JwtUserPayload)
        → req.user ≡ some p
        → (t : UserRole) → p.role ≡ t
        → (IsAdminRequest req × (guard_result req ≡ ok req))
          ⊎ ((e : Error) × (guard_result req ≡ err e) × IsRefusal e)
    by_role p there admin is = inl ((p, there, λ e. cc (e, is)), rw (there, is) refl)
    by_role p there super_admin is = inl ((p, there, λ e. cc (e, is)), rw (there, is) refl)
    by_role p there user is = inr (
      forbidden "You do not have permission to access this resource",
      rw (there, is) refl,
      inr refl,
    )

module _ (r : Redis) (server : Server r) where
  pub fails_status :
      {S : Type 0} (e : Error) (n : ℕ) (s : S)
      → status_code e ≡ some n
      → answer_status (fails r server e s).0 ≡ n
  unfolding fails error_handler
  fails_status e n s h = rw h refl

  -- Behind `authenticateJWT`, a request whose token is refused is answered with 401 and changes nothing.
  pub authenticated_by-refused :
      {S : Type 0} (db_of : S → Db) (handler : Request → S → Answer × S) (req : Request) (s : S)
      (e : Error)
      → authenticate_jwt server.crypto req (db_of s) ≡ err e
      → let q = authenticated_by r server db_of handler req s in
        (answer_status q.0 ≡ 401) × (q.1 ≡ s)
  unfolding authenticated_by fails error_handler
  authenticated_by-refused db_of handler req s e refused =
      let status = authenticate_jwt-eq-err server.crypto req (db_of s) e refused in
      let same : authenticated_by r server db_of handler req s ≡ fails r server e s =
        rw (authenticated_by, refused) refl in
      (ap (λ o. answer_status o.0) same ∙ fails_status e 401 s status, ap (λ o. o.1) same)

  -- The request has the token of an administrator, and its method is run.
  pub record IsLetThrough (call : AdminCall) (req : Request) (s : Session r) : Type 0 where
    pub passed : Request
    pub accepted : authenticate_jwt server.crypto req s.db ≡ ok passed
    pub payload : JwtUserPayload
    pub who : passed.user ≡ some payload
    pub role : payload.role ≢ user
    pub run : admin_router r server call req s ≡ admin_controller r server call passed s

  pub record IsTurnedAway (call : AdminCall) (req : Request) (s : Session r) : Type 0 where
    pub status :
        (answer_status (admin_router r server call req s).0 ≡ 401)
        ⊎ (answer_status (admin_router r server call req s).0 ≡ 403)
    pub unchanged : (admin_router r server call req s).1 ≡ s

  turned_away :
      (call : AdminCall) (req : Request) (s : Session r) (e : Error)
      → admin_router r server call req s ≡ fails r server e s
      → IsRefusal e
      → IsTurnedAway call req s
  unfolding fails
  turned_away call req s e same refusal = record {
    status = elim refusal [
      | inl a ↦ inl (ap (λ o. answer_status o.0) same ∙ fails_status e 401 s a)
      | inr b ↦ inr (ap (λ o. answer_status o.0) same ∙ fails_status e 403 s b)
    ];
    unchanged = ap (λ o. o.1) same;
  }

  -- A request to a route of the administrators is run only if its token is accepted and is that of an
  -- administrator or a super administrator. Every other one is answered with 401 or 403, and changes
  -- neither the tables, nor Redis, nor the queue of e-mails.
  pub admin_routes_are_guarded :
      (call : AdminCall) (req : Request) (s : Session r)
      → IsLetThrough call req s ⊎ IsTurnedAway call req s
  unfolding admin_router authenticated authenticated_by for_roles IsAdminRequest
  admin_routes_are_guarded call req s =
      elim (Result-cases (authenticate_jwt server.crypto req s.db)) [
        | inl (e, refused) ↦ inr (
            turned_away call req s e
              (rw (admin_router, authenticated, authenticated_by, refused) refl)
              (inl (authenticate_jwt-eq-err server.crypto req s.db e refused)))
        | inr (passed, accepted) ↦ elim (guard_cases passed) [
          | inl ((p, who, role), fine) ↦ inl (record {
            passed = passed;
            accepted = accepted;
            payload = p;
            who = who;
            role = role;
            run =
                rw (admin_router, authenticated, authenticated_by, accepted, for_roles, fine) refl;
          })
          | inr (e, refused, refusal) ↦ inr (
              turned_away call req s e
                (rw (admin_router, authenticated, authenticated_by, accepted, for_roles, refused)
                  refl)
                refusal)
        ]
      ]
