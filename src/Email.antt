-- ===== src/Email.antt =====
-- api/internal/email/email.go. Parameters are the rendered templates (`none` where a template fails),
-- the quoted-printable writer, the Q-encoding of `mime`, and `smtp.SendMail`; the trace is left out.
pub mod Headers
mod Tests
use Prim.Native.Char.{code}
use Prim.Native.String
use zaas.Prelude.{
  ℕ, String, Bool, true, false, not, ◌&&◌, ◌||◌, Option, none, some, ◌==◌, str_eq, if◌then◌else◌,
}
use zaas.Prelude.Int.{ℤ}
use zaas.Prelude.Text.{◌^^◌, show}
use zaas.Handlers.Auth.{Sender}

pub record SmtpConfig : Type 0 where
  pub host : String
  pub port : ℤ
  pub user : String
  pub password : String
  pub from : String

-- What the sender takes from the libraries. `send_mail` gets the address, whether a user logs in,
-- the sender, the receiver and the message.
pub record Libraries (S : Type 0) : Type 0 where
  pub render_html : String → String → Option String
  pub render_text : String → String → Option String
  pub quoted_printable : String → String
  pub q_encode : String → String
  pub send_mail : String → Bool → String → String → String → S → Bool × S

-- CR or LF
abbrev pub is_break : ℕ → Bool
is_break c = c == 13 || c == 10

-- `sanitizeHeader`
unfoldable pub sanitize_header : String → String
sanitize_header String.[] = String.[]
sanitize_header (String.◌∷◌ c s) =
    let rest = sanitize_header s in if is_break (code c) then rest else String.◌∷◌ c rest

-- `msg.WriteString(s + "\r\n")`, before the rest of the message
abbrev pub line : String → String → String
line s rest = s ^^ "\r\n" ^^ rest

abbrev pub boundary : String
boundary = "zaas-boundary-000"

-- One part of the message, of the type `mime`.
abbrev pub part : String → String → String → String
part mime content rest = line ("--" ^^ boundary) (
    line ("Content-Type: " ^^ mime ^^ "; charset=\"utf-8\"")
      (line "Content-Transfer-Encoding: quoted-printable" (line "" (content ^^ line "" rest))))

-- `from[idx+1:]` for the first "<", and `strings.TrimRight(_, ">")`
unfoldable pub after_bracket : String → Option String
after_bracket String.[] = none
after_bracket (String.◌∷◌ c s) = if code c == b'<' then some s else after_bracket s

unfoldable pub trim_brackets : String → String
trim_brackets String.[] = String.[]
trim_brackets (String.◌∷◌ c s) =
    let rest = trim_brackets s in
    if str_eq rest "" && (code c == b'>') then String.[] else String.◌∷◌ c rest

unfoldable pub envelope_from : String → String
unfolding after_bracket trim_brackets
envelope_from from = elim (after_bracket from) [ none ↦ from | some rest ↦ trim_brackets rest ]

unfoldable pub has_colon : String → Bool
has_colon String.[] = false
has_colon (String.◌∷◌ c s) = (code c == b':') || has_colon s

-- `net.JoinHostPort`; the port has no colon.
unfoldable pub join_host_port : String → String → String
unfolding has_colon
join_host_port host port =
    if has_colon host then "[" ^^ host ^^ "]:" ^^ port else host ^^ ":" ^^ port

module _ {S : Type 0} (lib : Libraries S) (cfg : SmtpConfig) where
  -- The message, from the rendered templates.
  unfoldable pub assemble : String → String → String → String → String
  unfolding sanitize_header
  assemble to subject html text = line ("From: " ^^ sanitize_header cfg.from) (
      line ("To: " ^^ sanitize_header to) (
        line ("Subject: " ^^ lib.q_encode subject) (
          line "MIME-Version: 1.0" (
            line ("Content-Type: multipart/alternative; boundary=\"" ^^ boundary ^^ "\"") (
              line "" (
                part "text/plain" (lib.quoted_printable text) (
                  part "text/html" (lib.quoted_printable html)
                    (line ("--" ^^ boundary ^^ "--") ""))))))))

  -- `buildMessage`
  unfoldable pub build_message : String → String → String → String → Option String
  unfolding assemble
  build_message to subject template_name url = elim (lib.render_html template_name url) [
    | none ↦ none
    | some html ↦ elim (lib.render_text template_name url) [
      | none ↦ none
      | some text ↦ some (assemble to subject html text)
    ]
  ]

  -- `send`: whether it went through, and the world after it.
  unfoldable pub send : String → String → String → String → S → Bool × S
  unfolding build_message envelope_from join_host_port
  send to subject template_name url s = elim (build_message to subject template_name url) [
    | none ↦ (false, s)
    | some msg ↦
        lib.send_mail (join_host_port cfg.host (show cfg.port)) (not (str_eq cfg.user ""))
          (envelope_from cfg.from) to msg s
  ]

  -- `NewSMTPSender`, as the sender of the handlers.
  unfoldable pub smtp_sender : Sender S
  unfolding send
  smtp_sender = record {
    send_verification = λ to url. send to "Verify your email" "verification" url;
    send_reissue = λ to url. send to "Re-issue your API key" "reissue" url;
  }
