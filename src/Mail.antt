-- ===== src/Mail.antt =====
-- The e-mail queue (services/email.services.ts) as the list of what was added to it.
pub mod Broadcast
pub mod Delivery
use bukia_hft.Base.{ℕ, ⊤, String, Bool, true, false, Option, List, [], ◌∷◌, ◌++◌}
use bukia_hft.Db.{Db}
use bukia_hft.Tx.{service, Result, ok, err}

-- The templates that the modelled services send, with their data.
pub data Template : Type 0 where
  transfer_status :
      (amount currency : String)
      → (first_name : Option String) → (from_wallet_id : ℕ) → (why : String) → (status : String)
      → (to_wallet_id : ℕ) → (tx_id : Option ℕ) → Template
  transfer_received :
      (amount currency : String)
      → (first_name from_name : Option String) → (to_wallet_id : ℕ) → (tx_id : Option ℕ) → Template
  welcome : (first_name : String) → Template
  otp_code : (expiry_minutes : ℕ) → (first_name : String) → (otp : String) → Template
  password_reset : (first_name : String) → Template
  admin_password_reset : (first_name temp_password : String) → Template

pub record Email : Type 0 where
  pub to : String
  pub template : Template
  pub subject : Option String

-- The database and the queue of e-mails.
pub record World : Type 0 where
  pub db : Db
  pub outbox : List Email

-- Whether rendering and queueing an e-mail succeeds, by what is queued already.
abbrev pub Mailer : Type 0
Mailer = List Email → Email → Bool

-- `emailService.send`
unfoldable pub send : Mailer → Email → World → Result ⊤ × World
send mailer e w = elim (mailer w.outbox e) [
  | true ↦ (ok tt, record w { outbox = w.outbox ++ e ∷ [] })
  | false ↦ (err (service "email"), w)
]
