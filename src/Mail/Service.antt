-- ===== src/Mail/Service.antt =====
-- src/mail/mail.service.ts. A mailer that fails is logged and nothing else, so neither call throws.
-- The name of the application, which every context gets, is left out.
use subscription_billing_eng.Prelude.{String, Option, none, some, ◌∷◌, if◌then◌else◌}
use subscription_billing_eng.Entities.{EmailContext}
use subscription_billing_eng.World.{World, Mail, draw}

-- `mailerService.sendMail`, and the `catch` around it.
unfoldable pub hand_over : Mail → World → World
hand_over mail w =
    if w.config.mail_enabled
    then draw (if w.mailer_accepts w.draws then record w { mails = mail ∷ w.mails } else w)
    else w

-- `sendTemplate`.
unfoldable pub send_template : String → String → Option EmailContext → String → World → World
unfolding hand_over
send_template to template context subject =
    hand_over (record { to = to; subject = subject; template = some template; context = context })

-- `sendRaw`; the text of the e-mail is left out.
unfoldable pub send_raw : String → String → World → World
unfolding hand_over
send_raw to subject =
    hand_over (record { to = to; subject = subject; template = none; context = none })
