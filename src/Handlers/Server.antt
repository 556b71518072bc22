-- ===== src/Handlers/Server.antt =====
-- `Server` of api/internal/handler/server.go as the `ServerInterface` of the generated code. The
-- source of random numbers is a part of the world. A handler that panicked would leave no answer:
-- net/http closes the connection.
use zaas.Prelude.{String, Option}
use zaas.Prelude.Lens.{Lens}
use zaas.Http.{Request, Response, Handler, blank}
use zaas.OpenApi.{ServerInterface}
use zaas.Service.Gen.{Source, Run, done, failed, panicked, Gen}
use zaas.Service.Float.{Float64}
use zaas.Service.SshKey.{SshLibrary}
use zaas.Handlers.Auth.{Server, RegisterRequest, VerifyRequest, ReissueRequest}
use zaas.Handlers.Auth.Register.{auth_register}
use zaas.Handlers.Auth.Verify.{auth_verify}
use zaas.Handlers.Auth.Reissue.{auth_reissue}
use zaas.Handlers.Endpoints.{
  roll_dice_handler, flip_coin_handler, generate_uuid, generate_color, generate_password,
  generate_words, generate_lorem,
}
use zaas.Handlers.Endpoints.Floats.{generate_number, generate_coordinates}
use zaas.Handlers.Endpoints.SshKeys.{generate_ssh_key}
use zaas.Handlers.Health.{openapi_spec}

-- What the handlers take from the libraries: the JSON decoder at the three bodies, the encoder of
-- floats, and what the services need.
pub record Libraries : Type 1 where
  pub decode_register : String → Option RegisterRequest
  pub decode_verify : String → Option VerifyRequest
  pub decode_reissue : String → Option ReissueRequest
  pub floats : Float64
  pub decimal : floats.F → String
  pub ssh : SshLibrary
  pub new_uuid : Gen String
  pub quote : String → String
  pub spec : String

abbrev pub finish : {S : Type 0} → Lens S Source → S → Run Response → Response × S
finish source s (done w g) = (w, source.put g s)
finish source s (failed e g) = (blank, source.put g s)
finish source s panicked = (blank, s)

-- A handler that draws from the source of the world.
unfoldable pub run_gen :
    {S : Type 0} → Lens S Source → (Response → Request → Gen Response) → Handler S
run_gen source h r w s = finish source s (h w r (source.get s))

module _ {S : Type 0} (lib : Libraries) (source : Lens S Source) (srv : Server S) where
  abbrev pub server : ServerInterface S
  server = record {
    auth_register = λ r. auth_register srv (lib.decode_register r.body) r;
    auth_reissue = λ r. auth_reissue srv (lib.decode_reissue r.body) r;
    auth_verify = λ r. auth_verify srv (lib.decode_verify r.body) r;
    flip_coin = run_gen source flip_coin_handler;
    generate_color = λ p. run_gen source (generate_color lib.floats lib.quote p.count p.format);
    generate_coordinates = λ p. run_gen source (generate_coordinates lib.floats lib.decimal p);
    roll_dice = λ p. run_gen source (roll_dice_handler p.sides p.count);
    generate_lorem = λ p. run_gen source (generate_lorem p.count p.paragraphs p.sentences);
    generate_number = λ p. run_gen source (generate_number lib.floats lib.decimal p);
    get_openapi_spec = openapi_spec lib.spec;
    generate_password = λ p. run_gen source (generate_password p);
    generate_ssh_key = λ p. run_gen source (generate_ssh_key lib.ssh lib.quote p);
    generate_uuid = λ p. run_gen source (generate_uuid lib.new_uuid lib.quote p.count p.format);
    generate_words = λ p. run_gen source (generate_words lib.quote p);
  }
