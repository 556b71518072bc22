-- ===== src/Email/Tests.antt =====
-- A concrete message of api/internal/email/email.go.
use zaas.Prelude.{ℕ, ◌≡◌, refl, String, true, some, false}
use zaas.Prelude.Int.{pos}
use zaas.Prelude.Text.{◌^^◌}
use zaas.Email.{SmtpConfig, Libraries, sanitize_header, assemble, build_message}
use zaas.Email.Headers.{has_break, HasHeaders, build_message-HasHeaders}

abbrev config : SmtpConfig
config = record {
  host = "smtp.example.com";
  port = pos 587;
  user = "";
  password = "";
  from = "ZaaS <noreply@zaas.at>";
}

-- Libraries whose mail always goes through, and is counted.
abbrev libraries : Libraries ℕ
libraries = record {
  render_html = λ name url. some ("<a href=" ^^ url ^^ ">");
  render_text = λ name url. some url;
  quoted_printable = λ s. s;
  q_encode = λ s. s;
  send_mail = λ _ _ _ _ _ n. (true, n);
}

abbrev injected : String
injected = "a@example.com\r\nBcc: b@example.com"

plain_subject : has_break "Verify your email" ≡ false
unfolding has_break
plain_subject = refl

cleaned : sanitize_header injected ≡ "a@example.comBcc: b@example.com"
unfolding sanitize_header
cleaned = refl

built :
    build_message libraries config injected "Verify your email" "verification" "https://zaas.at"
    ≡ some (
        assemble libraries config injected "Verify your email" "<a href=https://zaas.at>"
          "https://zaas.at")
unfolding build_message
built = refl

build_message-HasHeaders_example : HasHeaders (
    assemble libraries config injected "Verify your email" "<a href=https://zaas.at>"
      "https://zaas.at")
build_message-HasHeaders_example =
    build_message-HasHeaders libraries config injected "Verify your email" "verification"
      "https://zaas.at"
      (assemble libraries config injected "Verify your email" "<a href=https://zaas.at>"
        "https://zaas.at")
      plain_subject built
