-- ===== src/Mail/Broadcast.antt =====
-- `sendToUsersByTypes` of services/email.services.ts: all e-mails are sent, and the first error is thrown.
use bukia_hft.Base.{⊤, String, not, Option, List, [], ◌∷◌, map, filter_rows, str_eq}
use bukia_hft.Db.{UserRole, User}
use bukia_hft.Tx.{Result, ok, err}
use bukia_hft.Mail.{Email, Mailer, Template, World, send}
use bukia_hft.Repositories.User.{find_by_types}

abbrev first_error : Result ⊤ → Result ⊤ → Result ⊤
first_error (ok tt) rest = rest
first_error (err e) rest = err e

unfoldable pub send_all : Mailer → List Email → World → Result ⊤ × World
unfolding send
send_all mailer [] w = (ok tt, w)
send_all mailer (e ∷ es) w =
    let (result, w1) = send mailer e w in
    let (rest, w2) = send_all mailer es w1 in (first_error result rest, w2)

-- The addresses, without those that are blank.
unfoldable pub recipients_of : (trim : String → String) → List User → List String
recipients_of trim users = filter_rows (λ e. not (str_eq (trim e) "")) (map (λ u. u.email) users)

unfoldable pub send_to_users_by_types :
    Mailer
    → (trim : String → String) → List UserRole
    → Template
    → (subject : Option String) → World
    → Result ⊤ × World
unfolding send_all recipients_of find_by_types
send_to_users_by_types mailer trim user_type template subject w =
    let recipients = recipients_of trim (find_by_types user_type w.db) in
    send_all mailer
      (map (λ to. record { to = to; template = template; subject = subject }) recipients) w
