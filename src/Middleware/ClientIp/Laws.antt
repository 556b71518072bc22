-- ===== src/Middleware/ClientIp/Laws.antt =====
-- `extractIP` of api/internal/middleware/ratelimit.go: which address it takes.
use Prim.Native.Char.{Char, code}
use text.Mathlib.TextLemmas.{
  nil-append, cons-append, append-nil, append_assoc, append-ne-nil_of_right_ne-nil, cons-ne-nil,
}
use zaas.Prelude.{
  ℕ, ◌≡◌, ◌≢◌, refl, ◌∙◌, subst, inl, inr, String, true, false, ◌||◌, [], ◌∷◌, some, arith, ◌==◌,
  str_eq, str_eq_iff, last_or, Bool-cases,
}
use zaas.Prelude.Text.{◌^^◌, split_from, split, trim_space}
use zaas.Http.{Request, header}
use zaas.Middleware.ClientIp.{
  has_char, cut_first, cut_last, bracketed_host, plain_host, split_host, remote_host, extract_ip,
}

-- A text without the separator is one part.
split_from_one :
    (sep : ℕ) (part s : String) → has_char sep s ≡ false → split_from sep part s ≡ (part ^^ s) ∷ []
unfolding split_from has_char
split_from_one sep part String.[] h = rw append-nil refl
split_from_one sep part (String.◌∷◌ c s) h = elim (Bool-cases (code c == sep)) [
  | inl e ↦ cc (rw e at h)
  | inr e ↦ rw e (
      split_from_one sep (part ^^ String.◌∷◌ c String.[]) s (rw e at h)
      ∙ rw append_assoc (rw cons-append (rw nil-append refl)))
]

-- The last part is what follows the last separator.
last-split_from :
    (sep : ℕ) (c : Char) (part s t d : String)
    → code c ≡ sep
    → has_char sep t ≡ false
    → last_or d (split_from sep part (s ^^ String.◌∷◌ c t)) ≡ t
unfolding split_from
last-split_from sep c part String.[] t d e h =
    let here : (code c == sep) ≡ true = ground arith in
    rw nil-append (rw here (rw (split_from_one sep "" t h) (nil-append t)))
last-split_from sep c part (String.◌∷◌ x s) t d e h = elim (Bool-cases (code x == sep)) [
  | inl q ↦ rw cons-append (rw q (last-split_from sep c "" s t part e h))
  | inr q ↦ rw cons-append (rw q (last-split_from sep c (part ^^ String.◌∷◌ x String.[]) s t d e h))
]

str_eq_ne : (s t : String) → s ≢ t → str_eq s t ≡ false
str_eq_ne s t h = ground (arith, str_eq_iff s t)

-- Where the header ends in ", " and the address that the proxy saw, that address is the one taken,
-- white space aside, whatever stands before it.
pub extract_ip_trusts_proxy :
    (r : Request) (c : Char) (claimed seen : String)
    → code c ≡ b','
    → header "X-Forwarded-For" r ≡ claimed ^^ String.◌∷◌ c seen
    → has_char b',' seen ≡ false
    → trim_space seen ≢ ""
    → extract_ip r ≡ trim_space seen
unfolding extract_ip split
extract_ip_trusts_proxy r c claimed seen comma sent one present =
    rw
      (
        sent,
        last-split_from b',' c "" claimed seen "" comma one,
        str_eq_ne (claimed ^^ String.◌∷◌ c seen) ""
            (append-ne-nil_of_right_ne-nil claimed (cons-ne-nil c seen)),
        str_eq_ne (trim_space seen) "" present,
      )
      refl

-- Without the header, or where its last entry is blank, the address is that of the connection.
pub extract_ip_direct :
    (r : Request)
    → trim_space (last_or "" (split b',' (header "X-Forwarded-For" r))) ≡ ""
    → extract_ip r ≡ remote_host r
unfolding extract_ip
extract_ip_direct r blank = rw blank (ground (arith, str_eq_iff "" ""))

has_char-append : (c : ℕ) (s t : String) → has_char c (s ^^ t) ≡ (has_char c s || has_char c t)
unfolding has_char
has_char-append c String.[] t = rw nil-append refl
has_char-append c (String.◌∷◌ x s) t = rw cons-append (ground (arith, has_char-append c s t))

has_char-middle : (c : Char) (s t : String) → has_char (code c) (s ^^ String.◌∷◌ c t) ≡ true
unfolding has_char
has_char-middle c s t = rw has_char-append (ground arith)

cut_last_append :
    (c : Char) (s t : String)
    → has_char (code c) t ≡ false
    → cut_last (code c) (s ^^ String.◌∷◌ c t) ≡ some (s, t)
unfolding cut_last
cut_last_append c String.[] t h = rw nil-append (ground arith)
cut_last_append c (String.◌∷◌ x s) t h =
    rw (cons-append, cut_last_append c s t h) (ground (arith, has_char-middle c s t))

cut_first_append :
    (k : ℕ) (c : Char) (s t : String)
    → code c ≡ k
    → has_char k s ≡ false
    → cut_first k (s ^^ String.◌∷◌ c t) ≡ some (s, t)
unfolding cut_first has_char
cut_first_append k c String.[] t e h = rw nil-append (ground arith)
cut_first_append k c (String.◌∷◌ x s) t e h =
    rw cons-append (ground (arith, cut_first_append k c s t e))

has_char-around :
    (k : ℕ) (c : Char) (s t : String)
    → code c ≢ k
    → has_char k s ≡ false
    → has_char k t ≡ false
    → has_char k (s ^^ String.◌∷◌ c t) ≡ false
unfolding has_char
has_char-around k c s t ne hs ht = rw has_char-append (ground arith)

split_host_unbracketed : (s : String) → has_char b'[' s ≡ false → split_host s ≡ plain_host s
unfolding split_host
split_host_unbracketed String.[] h = refl
split_host_unbracketed (String.◌∷◌ x s) h =
    let other : (code x == b'[') ≡ false = ground arith in rw other refl

plain_host-append :
    (c : Char) (host port : String)
    → cut_last b':' (host ^^ String.◌∷◌ c port) ≡ some (host, port)
    → has_char b':' host ≡ false
    → has_char b'[' (host ^^ String.◌∷◌ c port) ≡ false
    → has_char b']' (host ^^ String.◌∷◌ c port) ≡ false
    → plain_host (host ^^ String.◌∷◌ c port) ≡ some host
plain_host-append c host port cut h1 h2 h3 = ground arith

bracketed_host-append :
    (e c : Char) (host port : String)
    → cut_first b']' (host ^^ String.◌∷◌ e (String.◌∷◌ c port)) ≡ some (host, String.◌∷◌ c port)
    → cut_first b':' (String.◌∷◌ c port) ≡ some ("", port)
    → has_char b':' port ≡ false
    → has_char b'[' (host ^^ String.◌∷◌ e (String.◌∷◌ c port)) ≡ false
    → has_char b']' port ≡ false
    → bracketed_host (host ^^ String.◌∷◌ e (String.◌∷◌ c port)) ≡ some host
bracketed_host-append e c host port cut gap h1 h2 h3 = ground arith

has_char-nil : (k : ℕ) → has_char k "" ≡ false
unfolding has_char
has_char-nil k = refl

has_char-cons :
    (k : ℕ) (c : Char) (t : String)
    → code c ≢ k
    → has_char k t ≡ false
    → has_char k (String.◌∷◌ c t) ≡ false
unfolding has_char
has_char-cons k c t ne h = ground arith

-- An address without brackets and colons, such as one of IPv4, is what stands before the colon of
-- "host:port".
split_host_plain :
    (c : Char) (host port : String)
    → code c ≡ b':'
    → (has_char b':' host ≡ false) × (has_char b'[' host ≡ false) × (has_char b']' host ≡ false)
    → (has_char b':' port ≡ false) × (has_char b'[' port ≡ false) × (has_char b']' port ≡ false)
    → split_host (host ^^ String.◌∷◌ c port) ≡ some host
split_host_plain c host port colon clean_host clean_port =
    let cut : cut_last b':' (host ^^ String.◌∷◌ c port) ≡ some (host, port) =
      subst
        (λ (k : ℕ).
          has_char k port ≡ false → cut_last k (host ^^ String.◌∷◌ c port) ≡ some (host, port))
        colon (cut_last_append c host port) clean_port.0 in
    let opening = has_char-around b'[' c host port (omega arith) clean_host.1 clean_port.1 in
    let closing = has_char-around b']' c host port (omega arith) clean_host.2 clean_port.2 in
    split_host_unbracketed (host ^^ String.◌∷◌ c port) opening
    ∙ plain_host-append c host port cut clean_host.0 opening closing

-- An address in brackets, such as one of IPv6, is what stands between them.
split_host_bracketed :
    (o e c : Char) (host port : String)
    → (code o ≡ b'[') × (code e ≡ b']') × (code c ≡ b':')
    → (has_char b'[' host ≡ false) × (has_char b']' host ≡ false)
    → (has_char b':' port ≡ false) × (has_char b'[' port ≡ false) × (has_char b']' port ≡ false)
    → split_host (String.◌∷◌ o (host ^^ String.◌∷◌ e (String.◌∷◌ c port))) ≡ some host
unfolding split_host
split_host_bracketed o e c host port marks clean_host clean_port =
    let opening : (code o == b'[') ≡ true = ground arith in
    rw opening (
      bracketed_host-append e c host port
        (cut_first_append b']' e host (String.◌∷◌ c port) marks.1 clean_host.1)
        (rw nil-append at (cut_first_append b':' c "" port marks.2 (has_char-nil b':')))
        clean_port.0
        (has_char-around b'[' e host (String.◌∷◌ c port) (omega arith) clean_host.0
          (has_char-cons b'[' c port (omega arith) clean_port.1))
        clean_port.2)
