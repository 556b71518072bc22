-- ===== src/Handlers/Endpoints/SshKeys.antt =====
-- `GenerateSSHKey` of api/internal/handler/server.go.
use zaas.Prelude.{String, [], ◌∷◌}
use zaas.Prelude.Int.{pos}
use zaas.Http.{Request, Response, Json, int, text, ssh_key}
use zaas.OpenApi.{GenerateSshKeyParams}
use zaas.Service.Gen.{Gen}
use zaas.Service.SshKey.{SshKeyPair, SshLibrary, generate_ssh_keys}
use zaas.Handlers.Respond.{default_ptr}
use zaas.Handlers.Endpoints.{answer}

-- `gen.SSHKey`, with the fields of the pair.
abbrev pub ssh_key_json : SshKeyPair → Json
ssh_key_json pair = ssh_key pair.private_key pair.public_key pair.fingerprint

unfoldable pub generate_ssh_key :
    SshLibrary → (String → String) → GenerateSshKeyParams → Response → Request → Gen Response
unfolding answer generate_ssh_keys
generate_ssh_key ssh quote params w r =
    let key_type = default_ptr params.key_type "ed25519" in
    let bits = default_ptr params.bits (pos 2048) in
    let comment = default_ptr params.comment "" in
    let k = default_ptr params.count (pos 1) in
    answer ssh_key_json w r
      (("type", text key_type)
        ∷ ("bits", int bits)
        ∷ ("comment", text comment)
        ∷ ("count", int k)
        ∷ [])
      (generate_ssh_keys ssh quote k key_type bits comment)
