-- ===== src/Apis.antt =====
-- The API: apis/routes.go, apis/handlers/getconfig.go, apis/handlers/updateconfig.go, and the part of
-- StartConfigWatcher in apis/configwatch.go that decides whether the server asks for certificates.
pub mod Answers
pub mod Certificates
use Prim.Native.Char.{Char, code}
use Prim.Native.String.{[], ◌∷◌, ◌++◌}
use l3afd.Prelude.{
  ℕ, Bool, true, false, ◌&&◌, ◌||◌, not, String, Option, none, some, List, nat_eq, ◌==◌,
  if◌then◌else◌,
}
use l3afd.Prelude.Text.{contains}
use l3afd.Models.{L3afBpfPrograms}
use l3afd.Config.{Config}
use l3afd.Config.Reading.{env_prod}
use l3afd.Os.{Os}
use l3afd.Exec.{on_option, pure, try, ◌>>=◌, ◌>>◌}
use l3afd.Kf.State.{Kf}
use l3afd.Kf.Report.{ebpf_programs, ebpf_programs_all}
use l3afd.Kf.Configs.{Choice, deploye_bpf_programs}

pub record Response : Type 0 where
  pub status_code : ℕ
  pub mesg : String

abbrev pub status_ok : ℕ
status_ok = 200

abbrev pub bad_request : ℕ
bad_request = 400

abbrev pub internal_server_error : ℕ
internal_server_error = 500

abbrev pub respond : ℕ → String → Response
respond status_code mesg = record { status_code = status_code; mesg = mesg }

abbrev pub marshalled : Option String → Response
marshalled none = respond internal_server_error "internal server error"
marshalled (some resp) = respond status_ok resp

-- The separator is the later one of the text, or this character.
abbrev pub longer_front : ℕ → Char → Option String → Option String
longer_front sep c (some front) = some (c ∷ front)
longer_front sep c none = if nat_eq (code c) sep then some [] else none

-- The index of strings.LastIndex and the slice in front of it.
unfoldable pub before_last : ℕ → String → Option String
before_last sep [] = none
before_last sep (c ∷ s) = longer_front sep c (before_last sep s)

abbrev pub or_whole : String → Option String → String
or_whole addr none = addr
or_whole addr (some front) = front

-- `if id := strings.LastIndex(addr, ":"); id > -1 { addr = addr[:id] }`
abbrev pub host_part : String → String
host_part addr = or_whole addr (before_last b':' addr)

-- An address that is none counts as a loopback address.
abbrev pub or_loopback : Option Bool → Bool
or_loopback none = true
or_loopback (some loopback) = loopback

module _ ⦃os : Os⦄ where
  unfoldable pub get_config : String → Kf Response
  get_config iface =
      if iface == ""
      then pure (respond bad_request "iface value is empty")
      else (do programs ← ebpf_programs iface; pure (marshalled (os.marshal_one "  " programs)))

  unfoldable pub get_config_all : Kf Response
  get_config_all = do all ← ebpf_programs_all; pure (marshalled (os.marshal "  " (some all)))

  -- A nil slice deploys nothing, as an empty one does.
  abbrev pub payload : Option (List L3afBpfPrograms) → List L3afBpfPrograms
  payload none = l3afd.Prelude.[]
  payload (some t) = t

  unfoldable pub deploy_payload : List Choice → Option (List L3afBpfPrograms) → Kf Response
  deploy_payload choices t = do
    deployed ← try (deploye_bpf_programs choices (payload t))
    pure (
        if deployed
        then respond status_ok ""
        else respond internal_server_error "failed to deploy ebpf programs")

  -- The body is nothing where it cannot be read.
  unfoldable pub update_config : List Choice → Option String → Kf Response
  unfolding deploy_payload on_option
  update_config choices body =
      on_option body (pure (respond internal_server_error "failed to read request body"))
        λ body_buffer.
          on_option (os.unmarshal body_buffer)
            (pure (respond internal_server_error "failed to unmarshal payload"))
            (λ t. deploy_payload choices t)

  unfoldable pub is_loopback : String → Bool
  unfolding before_last
  is_loopback addr =
      if contains addr "localhost:" then true else or_loopback (os.parse_ip (host_part addr))

  -- Whether the server listens with mTLS.
  unfoldable pub listens_with_mtls : Config → Bool
  unfolding is_loopback
  listens_with_mtls conf =
      if not conf.mtls_enabled
        && (not (is_loopback conf.l3af_configs_rest_api_addr) && (conf.environment == env_prod))
      then true
      else conf.mtls_enabled

-- apiRoutes: the handler of each route.
pub data Handler : Type 0 where
  update_config_handler get_config_handler get_config_all_handler : Handler

pub record Route : Type 0 where
  pub method : String
  pub path : String
  pub handler_func : Handler

abbrev pub api_routes : List Route
api_routes =
    l3afd.Prelude.◌∷◌
      (record {
        method = "POST";
        path = "/l3af/configs/{version}/update";
        handler_func = update_config_handler;
      })
      (l3afd.Prelude.◌∷◌
        (record {
          method = "GET";
          path = "/l3af/configs/{version}/{iface}";
          handler_func = get_config_handler;
        })
        (l3afd.Prelude.◌∷◌
          (record {
            method = "GET";
            path = "/l3af/configs/{version}";
            handler_func = get_config_all_handler;
          })
          l3afd.Prelude.[]))
