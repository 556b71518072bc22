-- ===== src/Service/SshKey.antt =====
-- api/internal/service/sshkey.go. Key generation, the encoders of golang.org/x/crypto/ssh, x509 and
-- pem are an interface; their errors pass through. `%q` of `fmt` is `quote`.
pub mod Laws
pub mod Sample
mod Tests
use Prim.Native.Char.{Char}
use Prim.Native.String
use zaas.Prelude.{
  ℕ, suc, String, Bool, not, ◌&&◌, ltb, List, Option, none, some, str_eq, if◌then◌else◌,
}
use zaas.Prelude.Int.{ℤ, pos, eq_ℤ}
use zaas.Prelude.Text.{◌^^◌, show, len}
use zaas.Service.Gen.{
  ServiceError, errorf, plain, err_invalid_key_type, err_invalid_key_bits, err_invalid_param, Run,
  done, failed, panicked, Gen, pure, or_panic, ◌>>=◌, ◌>>◌, refuse_if, make_with,
}
use zaas.Service.Number.{is_out_of_range, check_count}

pub record SshKeyPair : Type 0 where
  pub private_key : String
  pub public_key : String
  pub fingerprint : String

-- A private key of either kind with its public key. `generate_*` and the encoders may fail.
pub record SshLibrary : Type 1 where
  pub Key : Type 0
  pub PublicKey : Type 0
  pub generate_ed25519 : Gen Key
  pub generate_rsa : ℤ → Gen Key
  pub marshal_private_key : Key → Gen String
  pub marshal_pkcs1 : Key → String
  pub new_public_key : Key → Gen PublicKey
  pub marshal_authorized_key : PublicKey → String
  pub fingerprint_sha256 : PublicKey → String

abbrev pub first_char : Char → Option String → Option String
first_char c none = some String.[]
first_char c (some rest) = some (String.◌∷◌ c rest)

-- `line[:len(line)-1]`, where the last character is one byte; `none` is a panic.
unfoldable pub drop_last : String → Option String
drop_last String.[] = none
drop_last (String.◌∷◌ c s) = first_char c (drop_last s)

-- `fmt.Errorf("generating keypair %d: %w", i, err)`
abbrev pub numbered : {A : Type 0} → ℕ → Run A → Run A
numbered i (done a g) = done a g
numbered i (failed e g) =
    failed
      (record {
        kind = e.kind;
        message = "generating keypair " ^^ show (pos i) ^^ ": " ^^ e.message;
      })
      g
numbered i panicked = panicked

module _ (ssh : SshLibrary) where
  unfoldable pub public_key_string : ssh.PublicKey → String → Gen String
  unfolding drop_last ◌>>=◌
  public_key_string key comment = do
    line ← or_panic (drop_last (ssh.marshal_authorized_key key))
    pure (if str_eq comment "" then line ^^ "\n" else line ^^ " " ^^ comment ^^ "\n")

  -- The end of `generateEd25519` and `generateRSA`.
  abbrev pub key_pair : String → ssh.PublicKey → String → Gen SshKeyPair
  key_pair private_key key comment = public_key_string key comment >>= λ public_key. pure record {
    private_key = private_key;
    public_key = public_key;
    fingerprint = ssh.fingerprint_sha256 key;
  }

  unfoldable pub generate_ed25519_pair : String → Gen SshKeyPair
  unfolding public_key_string ◌>>=◌
  generate_ed25519_pair comment = do
    priv ← ssh.generate_ed25519
    pem ← ssh.marshal_private_key priv
    key ← ssh.new_public_key priv
    key_pair pem key comment

  unfoldable pub generate_rsa_pair : ℤ → String → Gen SshKeyPair
  unfolding public_key_string ◌>>=◌
  generate_rsa_pair bits comment = do
    priv ← ssh.generate_rsa bits
    key ← ssh.new_public_key priv
    key_pair (ssh.marshal_pkcs1 priv) key comment

  unfoldable pub generate_ssh_key_pair : String → ℤ → String → Gen SshKeyPair
  unfolding generate_ed25519_pair generate_rsa_pair
  generate_ssh_key_pair key_type bits comment g =
      if str_eq key_type "ed25519"
      then generate_ed25519_pair comment g
      else (if str_eq key_type "rsa"
          then generate_rsa_pair bits comment g
          else failed (plain err_invalid_key_type) g)

  unfoldable pub generate_ssh_keys :
      (String → String) → ℤ → String → ℤ → String → Gen (List SshKeyPair)
  unfolding generate_ssh_key_pair check_count ◌>>=◌ make_with
  generate_ssh_keys quote count key_type bits comment = do
    refuse_if (not (str_eq key_type "ed25519") && not (str_eq key_type "rsa"))
        (errorf err_invalid_key_type ("key type must be ed25519 or rsa; got " ^^ quote key_type))
    refuse_if (str_eq key_type "rsa" && not (eq_ℤ bits (pos 2048)) && not (eq_ℤ bits (pos 4096)))
        (errorf err_invalid_key_bits ("RSA bits must be 2048 or 4096; got " ^^ show bits))
    refuse_if (ltb 128 (len comment)) (
        errorf err_invalid_param
          ("comment must be at most 128 characters; got " ^^ show (pos (len comment))))
    check_count count 5
    make_with count λ i g. numbered (suc i) (generate_ssh_key_pair key_type bits comment g)
