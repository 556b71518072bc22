-- ===== src/Email/Headers.antt =====
-- The header lines of the messages.
use Prim.Native.Char.{code}
use text.Mathlib.TextLemmas.{nil-append, cons-append}
use zaas.Prelude.{
  ◌≡◌, refl, subst, length, inl, inr, String, Bool, false, ◌||◌, List, [], ◌∷◌, Option, none, some,
  All, arith, Bool-cases, Option-cases,
}
use zaas.Prelude.Text.{◌^^◌}
use zaas.Email.{
  SmtpConfig, Libraries, is_break, sanitize_header, line, boundary, part, assemble, build_message,
}

-- There is a line break in the text.
unfoldable pub has_break : String → Bool
has_break String.[] = false
has_break (String.◌∷◌ c s) = is_break (code c) || has_break s

has_break-append : (s t : String) → has_break (s ^^ t) ≡ (has_break s || has_break t)
unfolding has_break
has_break-append String.[] t = rw nil-append refl
has_break-append (String.◌∷◌ c s) t = rw cons-append (ground (arith, has_break-append s t))

has_break-sanitize : (s : String) → has_break (sanitize_header s) ≡ false
unfolding has_break sanitize_header
has_break-sanitize String.[] = refl
has_break-sanitize (String.◌∷◌ c s) = elim (Bool-cases (is_break (code c))) [
  | inl e ↦ rw e (has_break-sanitize s)
  | inr e ↦ rw e (rw e (has_break-sanitize s))
]

-- The lines, each with its end, and then the rest.
abbrev pub unlines : List String → String → String
unlines [] rest = rest
unlines (s ∷ ss) rest = line s (unlines ss rest)

-- A header of five lines, none of which is broken, then the body after an empty line.
pub record HasHeaders (msg : String) : Type 0 where
  pub headers : List String
  pub body : String
  pub five : length headers ≡ 5
  pub whole : All (λ s. has_break s ≡ false) headers
  pub printed : msg ≡ unlines headers (line "" body)

whole_line :
    (name value : String)
    → has_break name ≡ false
    → has_break value ≡ false
    → has_break (name ^^ value) ≡ false
whole_line name value h k = rw (has_break-append, h, k) refl

module _ {S : Type 0} (lib : Libraries S) (cfg : SmtpConfig) where
  assemble-HasHeaders :
      (to subject html text : String)
      → has_break (lib.q_encode subject) ≡ false
      → HasHeaders (assemble lib cfg to subject html text)
  unfolding assemble has_break
  assemble-HasHeaders to subject html text encoded = record {
    headers =
        ("From: " ^^ sanitize_header cfg.from)
        ∷ ("To: " ^^ sanitize_header to)
        ∷ ("Subject: " ^^ lib.q_encode subject)
        ∷ "MIME-Version: 1.0"
        ∷ ("Content-Type: multipart/alternative; boundary=\"" ^^ boundary ^^ "\"")
        ∷ [];
    body =
        part "text/plain" (lib.quoted_printable text)
          (part "text/html" (lib.quoted_printable html) (line ("--" ^^ boundary ^^ "--") ""));
    five = refl;
    whole = (
      whole_line "From: " (sanitize_header cfg.from) refl (has_break-sanitize cfg.from),
      (
        whole_line "To: " (sanitize_header to) refl (has_break-sanitize to),
        (whole_line "Subject: " (lib.q_encode subject) refl encoded, (refl, (refl, tt))),
      ),
    );
    printed = refl;
  }

  -- No receiver, sender or subject can add a header: where a message is built, and the Q-encoding of
  -- the subject has no line break, its header is five lines, none of which is broken.
  pub build_message-HasHeaders :
      (to subject template_name url msg : String)
      → has_break (lib.q_encode subject) ≡ false
      → build_message lib cfg to subject template_name url ≡ some msg
      → HasHeaders msg
  unfolding build_message
  build_message-HasHeaders to subject template_name url msg encoded built =
      elim (Option-cases (lib.render_html template_name url)) [
        | inl failed ↦
            let bad : ◌≡◌ {A = Option String} none (some msg) =
              rw (build_message, failed) at built in
            cc
        | inr (html, e) ↦ elim (Option-cases (lib.render_text template_name url)) [
          | inl failed ↦
              let bad : ◌≡◌ {A = Option String} none (some msg) =
                rw (build_message, e, failed) at built in
              cc
          | inr (text, e') ↦
              let made : some (assemble lib cfg to subject html text) ≡ some msg =
                rw (build_message, e, e') at built in
              let same : assemble lib cfg to subject html text ≡ msg = cc in
              subst HasHeaders same (assemble-HasHeaders to subject html text encoded)
        ]
      ]
