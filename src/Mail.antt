-- ===== src/Mail.antt =====
-- backend/src/security_review/infrastructure/email/email_provider.py. What an SMTP server answers
-- is a parameter. An e-mail counts as sent when it is handed over, to the log or to the server.
use security_review_ai.Prelude.{
  String, str_eq, Bool, ◌||◌, not, Option, none, some, [], ◌∷◌, ◌++◌, is_truthy, strip, lower,
  if◌then◌else◌,
}
use security_review_ai.Exec.{Result, ok, err, email_provider_error, raise, modify}
use security_review_ai.System.{Action, Email}

pub record EmailProvider : Type 0 where
  -- whether the e-mail is handed over, or what is raised
  pub deliver : Email → Result (Unit {0})

abbrev after_delivery : Email → Result (Unit {0}) → Action (Unit {0})
after_delivery m (ok u) = modify (λ s. record s { emails = s.emails ++ m ∷ [] })
after_delivery m (err e) = raise e

-- `send_password_reset_email` and `send_invite_email`
abbrev pub send : EmailProvider → Email → Action (Unit {0})
send mail m = after_delivery m (mail.deliver m)

unfoldable pub console_provider : EmailProvider
console_provider = record { deliver = λ m. ok tt }

-- `accepts` is false where the transport raises OSError or SMTPException
abbrev send_by : (Email → Bool) → Email → Result (Unit {0})
send_by accepts m = if accepts m then ok tt else err email_provider_error

unfoldable pub smtp_provider : Option String → Option String → (Email → Bool) → Result EmailProvider
smtp_provider host from_address accepts =
    if not (is_truthy host) || not (is_truthy from_address)
    then err email_provider_error
    else ok (record { deliver = send_by accepts })

abbrev provider_name : Option String → String
provider_name none = "console"
provider_name (some v) = lower (strip v)

unfoldable pub get_email_provider : Option String → Result EmailProvider → Result EmailProvider
get_email_provider name smtp =
    if str_eq (provider_name name) "smtp" then smtp else ok console_provider
