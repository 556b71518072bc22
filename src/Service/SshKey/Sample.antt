-- ===== src/Service/SshKey/Sample.antt =====
-- Keys that are all the same, as the libraries of api/internal/service/sshkey.go.
use zaas.Prelude.{ℕ, ◌≡◌, refl}
use zaas.Service.Gen.{pure}
use zaas.Service.Gen.Yields.{Yields-pure}
use zaas.Service.SshKey.{SshLibrary}
use zaas.Service.SshKey.Laws.{SshLaws}

abbrev pub ssh : SshLibrary
ssh = record {
  Key = ℕ;
  PublicKey = ℕ;
  generate_ed25519 = pure 1;
  generate_rsa = λ bits. pure 2;
  marshal_private_key = λ k. pure "PRIVATE KEY";
  marshal_pkcs1 = λ k. "PRIVATE KEY";
  new_public_key = λ k. pure k;
  marshal_authorized_key = λ p. "ssh-key AAAA\n";
  fingerprint_sha256 = λ p. "SHA256:abcd";
}

pub ssh_laws : SshLaws ssh
ssh_laws = record {
  public_of = λ k. k;
  Encodes = λ k s. s ≡ "PRIVATE KEY";
  ed25519 = Yields-pure 1 tt;
  rsa = λ bits. Yields-pure 2 tt;
  private = λ k. Yields-pure "PRIVATE KEY" refl;
  pkcs1 = λ k. refl;
  public = λ k. Yields-pure k refl;
  ends_line = λ p. ("ssh-key AAAA", refl);
}
