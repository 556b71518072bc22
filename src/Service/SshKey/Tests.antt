-- ===== src/Service/SshKey/Tests.antt =====
-- Concrete calls of api/internal/service/sshkey.go.
use zaas.Prelude.{◌≡◌, length, All}
use zaas.Prelude.Int.{pos}
use zaas.Service.Gen.Yields.{Yields}
use zaas.Service.SshKey.{generate_ssh_keys}
use zaas.Service.SshKey.Laws.{TakesKeys, IsKeyPair, IsLibraryError, generate_ssh_keys-Yields}
use zaas.Service.SshKey.Sample.{ssh, ssh_laws}

generate_ssh_keys-Yields_example :
    Yields
      (λ ps.
        TakesKeys (pos 2) "rsa" (pos 4096) "me@home"
        × (pos (length ps) ≡ pos 2)
        × All (IsKeyPair ssh ssh_laws "me@home") ps)
      (λ e. TakesKeys (pos 2) "rsa" (pos 4096) "me@home" → IsLibraryError e)
      (generate_ssh_keys ssh (λ s. s) (pos 2) "rsa" (pos 4096) "me@home")
generate_ssh_keys-Yields_example =
    generate_ssh_keys-Yields ssh ssh_laws (λ s. s) (pos 2) "rsa" (pos 4096) "me@home"
