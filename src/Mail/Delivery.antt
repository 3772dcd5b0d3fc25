-- ===== src/Mail/Delivery.antt =====
-- `processJob` of services/email.services.ts with `send` of providers/aws-ses.provider.ts, and the jobs of
-- workers/email.worker.ts. What SES answers, by the attempts that are left, is a parameter; the template and
-- its data stand for the text that is rendered from them.
use bukia_hft.Base.{
  ⊤, ℕ, String, Bool, false, ◌||◌, Option, none, some, List, [], ◌∷◌, ◌++◌, str_eq, if◌then◌else◌,
}
use bukia_hft.Tx.{Result, ok, err, service}
use bukia_hft.Jobs.{Queue, add_job, run_picks}
use bukia_hft.Mail.{Template, Email}

-- `SES_PERMANENT_ERRORS`
abbrev pub ses_permanent_errors : List String
ses_permanent_errors =
    "AccountSendingPaused" ∷ "ConfigurationSetDoesNotExist" ∷ "EmailAddressNotVerifiedException"
    ∷ "MailFromDomainNotVerifiedException" ∷ "MessageRejected" ∷ []

abbrev pub is_among : List String → String → Bool
is_among [] name = false
is_among (n ∷ ns) name = str_eq n name || is_among ns name

-- What SES is asked to send.
pub record SesMessage : Type 0 where
  pub source : String
  pub to : String
  pub html : Template
  pub subject : String

-- The queue of e-mails, with the messages that SES has accepted as its state.
abbrev pub Deliveries : Type 0
Deliveries = Queue Email (List SesMessage)

abbrev pub or_notification : Option String → String
or_notification none = "Notification"
or_notification (some s) = s

-- SES accepts a message, or raises an error with a name.
module _ (email_from : String) (ses : ℕ → SesMessage → Option String) where
  -- `send` of the provider: a permanent error is logged, and counts as done.
  unfoldable pub send_by_ses : ℕ → SesMessage → List SesMessage → Result ⊤ × List SesMessage
  send_by_ses left message sent = elim (ses left message) [
    | none ↦ (ok tt, sent ++ message ∷ [])
    | some name ↦
        if is_among ses_permanent_errors name then (ok tt, sent) else (err (service name), sent)
  ]

  unfoldable pub process_email : ℕ → Email → List SesMessage → Result ⊤ × List SesMessage
  unfolding send_by_ses
  process_email left e sent =
      send_by_ses left
        (record {
          source = email_from;
          to = e.to;
          html = e.template;
          subject = or_notification e.subject;
        })
        sent

  abbrev pub email_attempts : ℕ
  email_attempts = 5

  -- The e-mails that are added to the queue, and then the attempts of the worker, at the given places.
  unfoldable pub run_emails : List Email → List ℕ → Deliveries → Deliveries
  unfolding process_email run_picks add_job
  run_emails [] places q = run_picks process_email places q
  run_emails (e ∷ es) places q = run_emails es places (add_job email_attempts e q)
