-- ===== src/Service/SshKey/Laws.antt =====
-- The key pairs that api/internal/service/sshkey.go gives.
use text.Mathlib.TextLemmas.{cons-append}
use zaas.Prelude.{
  ℕ, suc, ◌≡◌, ◌⊎◌, inl, inr, refl, ap, String, true, false, not, ◌&&◌, some, length, All, arith,
  str_eq, str_eq_iff, Bool-cases, if◌then◌else◌, ◌≤◌,
}
use zaas.Prelude.Int.{ℤ, pos, negsuc, eq_ℤ}
use zaas.Prelude.Text.{◌^^◌, len}
use zaas.Service.Gen.{ServiceError, err_library, Run, done, failed, panicked, pure, or_panic}
use zaas.Service.Gen.Yields.{
  Yields, Ends, Yields-pure, Yields-bind, Yields-weaken, Yields-refuse_if, Yields-make_with,
  Yields-or_panic, AllFrom-All,
}
use zaas.Service.Number.Laws.{IsBetween, Yields-check_count}
use zaas.Service.SshKey.{
  SshKeyPair, SshLibrary, first_char, drop_last, numbered, public_key_string, key_pair,
  generate_ed25519_pair, generate_rsa_pair, generate_ssh_key_pair, generate_ssh_keys,
}

drop_last-append : (line : String) → drop_last (line ^^ "\n") ≡ some line
unfolding drop_last
drop_last-append String.[] = refl
drop_last-append (String.◌∷◌ c s) = rw cons-append (ap (first_char c) (drop_last-append s))

-- An error that a library returned.
abbrev pub IsLibraryError : ServiceError → Type 0
IsLibraryError e = e.kind ≡ err_library

-- What the code relies on: a call of the libraries returns or fails, and does not panic; the public
-- key is that of the private key; and an authorized key ends with a line break.
pub record SshLaws (ssh : SshLibrary) : Type 1 where
  pub public_of : ssh.Key → ssh.PublicKey
  pub Encodes : ssh.Key → String → Type 0
  pub ed25519 : Yields (λ k. Unit {0}) IsLibraryError ssh.generate_ed25519
  pub rsa : (bits : ℤ) → Yields (λ k. Unit {0}) IsLibraryError (ssh.generate_rsa bits)
  pub private : (k : ssh.Key) → Yields (Encodes k) IsLibraryError (ssh.marshal_private_key k)
  pub pkcs1 : (k : ssh.Key) → Encodes k (ssh.marshal_pkcs1 k)
  pub public : (k : ssh.Key) → Yields (λ p. p ≡ public_of k) IsLibraryError (ssh.new_public_key k)
  pub ends_line :
      (p : ssh.PublicKey) → (line : String) × (ssh.marshal_authorized_key p ≡ line ^^ "\n")

-- A kind of key that there is, for RSA with its size.
abbrev pub IsKind : String → ℤ → Type 0
IsKind key_type bits =
    (key_type ≡ "ed25519") ⊎ ((key_type ≡ "rsa") × ((bits ≡ pos 2048) ⊎ (bits ≡ pos 4096)))

kind_passes :
    (key_type : String) (bits : ℤ)
    → IsKind key_type bits
    → (not (str_eq key_type "ed25519") && not (str_eq key_type "rsa") ≡ false)
      × (str_eq key_type "rsa" && not (eq_ℤ bits (pos 2048)) && not (eq_ℤ bits (pos 4096)) ≡ false)
kind_passes key_type bits (inl e) = (rw e refl, rw e refl)
kind_passes key_type bits (inr (e, inl k)) = (rw e refl, rw (e, k) refl)
kind_passes key_type bits (inr (e, inr k)) = (rw e refl, rw (e, k) refl)

eq_of_eq_ℤ : (a : ℤ) (n : ℕ) → eq_ℤ a (pos n) ≡ true → a ≡ pos n
eq_of_eq_ℤ (pos m) n h = ground arith
eq_of_eq_ℤ (negsuc m) n h = ground arith

IsKind-of_passes :
    (key_type : String) (bits : ℤ)
    → not (str_eq key_type "ed25519") && not (str_eq key_type "rsa") ≡ false
    → str_eq key_type "rsa" && not (eq_ℤ bits (pos 2048)) && not (eq_ℤ bits (pos 4096)) ≡ false
    → IsKind key_type bits
IsKind-of_passes key_type bits h k = elim (Bool-cases (str_eq key_type "ed25519")) [
  | inl e ↦ inl ((str_eq_iff _ _).0 e)
  | inr e ↦ elim (Bool-cases (str_eq key_type "rsa")) [
    | inr f ↦ let bad : ⊥ = cc (rw (e, f) at h) in elim bad [ ]
    | inl f ↦ inr (
      (str_eq_iff _ _).0 f,
      elim (Bool-cases (eq_ℤ bits (pos 2048))) [
        | inl q ↦ inl (eq_of_eq_ℤ bits 2048 q)
        | inr q ↦ inr (eq_of_eq_ℤ bits 4096 (ground arith))
      ],
    )
  ]
]

-- The parameters that `GenerateSSHKeys` takes.
pub record TakesKeys (count : ℤ) (key_type : String) (bits : ℤ) (comment : String) : Type 0 where
  pub kind : IsKind key_type bits
  pub short : len comment ≤ 128
  pub counted : IsBetween (pos 1) (pos 5) count

module _ (ssh : SshLibrary) (laws : SshLaws ssh) where
  -- The line of an authorized key with the comment.
  abbrev pub with_comment : String → String → String
  with_comment line comment =
      if str_eq comment "" then line ^^ "\n" else line ^^ " " ^^ comment ^^ "\n"

  -- Both keys, and the fingerprint, are those of one key; the public key has the comment behind it.
  pub record IsKeyPair (comment : String) (pair : SshKeyPair) : Type 0 where
    pub key : ssh.Key
    pub line : String
    pub private : laws.Encodes key pair.private_key
    pub authorized : ssh.marshal_authorized_key (laws.public_of key) ≡ line ^^ "\n"
    pub public : pair.public_key ≡ with_comment line comment
    pub fingerprint : pair.fingerprint ≡ ssh.fingerprint_sha256 (laws.public_of key)

  public_key_string-Yields :
      (p : ssh.PublicKey) (line comment : String)
      → ssh.marshal_authorized_key p ≡ line ^^ "\n"
      → Yields
          (λ out. out ≡ with_comment line comment)
          IsLibraryError
          (public_key_string ssh p comment)
  unfolding public_key_string
  public_key_string-Yields p line comment end =
      Yields-bind (or_panic (drop_last (ssh.marshal_authorized_key p)))
        (λ l. pure (with_comment l comment))
        (Yields-or_panic {P = λ l. l ≡ line} (drop_last (ssh.marshal_authorized_key p)) line
          (rw end (drop_last-append line)) refl)
        λ l same. Yields-pure (with_comment l comment) (rw same refl)

  key_pair-Yields :
      (k : ssh.Key) (s : String) (p : ssh.PublicKey) (comment : String)
      → laws.Encodes k s
      → p ≡ laws.public_of k
      → Yields (IsKeyPair comment) IsLibraryError (key_pair ssh s p comment)
  key_pair-Yields k s p comment enc e =
      let (line, end) = laws.ends_line p in
      Yields-bind _ _ (public_key_string-Yields p line comment end) λ out same.
        Yields-pure _ (record {
          key = k;
          line = line;
          private = enc;
          authorized = rw (← e) end;
          public = same;
          fingerprint = rw e refl;
        })

  generate_ed25519_pair-Yields :
      (comment : String)
      → Yields (IsKeyPair comment) IsLibraryError (generate_ed25519_pair ssh comment)
  unfolding generate_ed25519_pair
  generate_ed25519_pair-Yields comment = Yields-bind _ _ laws.ed25519 λ k _.
      Yields-bind _ _ (laws.private k)
        λ s enc. Yields-bind _ _ (laws.public k) λ p e. key_pair-Yields k s p comment enc e

  generate_rsa_pair-Yields :
      (bits : ℤ) (comment : String)
      → Yields (IsKeyPair comment) IsLibraryError (generate_rsa_pair ssh bits comment)
  unfolding generate_rsa_pair
  generate_rsa_pair-Yields bits comment = Yields-bind _ _ (laws.rsa bits) λ k _.
      Yields-bind _ _ (laws.public k)
        λ p e. key_pair-Yields k (ssh.marshal_pkcs1 k) p comment (laws.pkcs1 k) e

  generate_ssh_key_pair-Yields :
      (key_type : String) (bits : ℤ) (comment : String)
      → IsKind key_type bits
      → Yields (IsKeyPair comment) IsLibraryError (generate_ssh_key_pair ssh key_type bits comment)
  unfolding generate_ssh_key_pair
  generate_ssh_key_pair-Yields key_type bits comment (inl e) =
      rw e (generate_ed25519_pair-Yields comment)
  generate_ssh_key_pair-Yields key_type bits comment (inr (e, _)) =
      rw e (generate_rsa_pair-Yields bits comment)

  numbered-Ends :
      {A : Type 0} (P : A → Type 0) (T : Type 0) (i : ℕ) (r : Run A)
      → Ends P IsLibraryError r
      → Ends P (λ e. T → IsLibraryError e) (numbered i r)
  numbered-Ends P T i (done a g) h = h
  numbered-Ends P T i (failed e g) h = λ _. h
  numbered-Ends P T i panicked h = h

  -- `GenerateSSHKeys` returns the count that was asked for of key pairs with the comment, where the
  -- parameters are in order and the libraries do not fail; else it returns an error, and an error
  -- of the libraries where the parameters are in order. It never panics.
  pub generate_ssh_keys-Yields :
      (quote : String → String) (count : ℤ) (key_type : String) (bits : ℤ) (comment : String)
      → Yields
          (λ ps.
            TakesKeys count key_type bits comment
            × (pos (length ps) ≡ count)
            × All (IsKeyPair comment) ps)
          (λ e. TakesKeys count key_type bits comment → IsLibraryError e)
          (generate_ssh_keys ssh quote count key_type bits comment)
  unfolding generate_ssh_keys
  generate_ssh_keys-Yields quote count key_type bits comment =
      Yields-bind _ _
        (Yields-refuse_if _ _ (λ out h. absurd (cc (out, (kind_passes key_type bits h.kind).0))))
        λ _ known.
          Yields-bind _ _
            (Yields-refuse_if _ _
              (λ out h. absurd (cc (out, (kind_passes key_type bits h.kind).1))))
            λ _ sized.
              Yields-bind _ _ (Yields-refuse_if _ _ (λ out h. absurd (ground (arith, h.short))))
                λ _ short.
                  Yields-bind _ _ (Yields-check_count count 5 (λ bad e h. absurd (bad h.counted)))
                    λ _ counted.
                      let kind = IsKind-of_passes key_type bits known sized in
                      let takes : TakesKeys count key_type bits comment = record {
                        kind = kind;
                        short = ground arith;
                        counted = counted;
                      } in
                      Yields-weaken _
                        (λ ps h. (takes, h.0, AllFrom-All (IsKeyPair comment) 0 ps h.1))
                        (Yields-make_with (λ i. IsKeyPair comment) _ count (omega arith)
                          λ i. record {
                            at = λ g.
                                numbered-Ends (IsKeyPair comment) _ (suc i) _
                                  ((generate_ssh_key_pair-Yields key_type bits comment kind).at g);
                          })
