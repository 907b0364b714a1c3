-- ===== src/Config/Loader.antt =====
-- config/config_loader.go: reading one field of the configuration file. The reader of the file, the
-- parsers of durations and URLs and the CSV reader are the parameter `Reader`. A mandatory field that
-- cannot be read ends the daemon: `log.Fatal` is an error of the model, since nothing goes on after it.
use l3afd.Prelude.{ℤ, Bool, String, Option, none, some, List, [], ◌==◌, if◌then◌else◌}
use l3afd.Prelude.Text.{trim_space}
use l3afd.Exec.{Result, ok, err}

-- What github.com/robfig/config, net/url, encoding/csv and time answer.
pub record Reader : Type 0 where
  pub string_at : (group field : String) → Option String
  pub bool_at : (group field : String) → Option Bool
  pub int_at : (group field : String) → Option ℤ
  pub parse_duration : String → Option ℤ
  pub parse_url : String → Option String
  pub read_csv : String → Option (List String)

abbrev pub fatal : {A : Type 0} → String → Option A → Result A
fatal kind none = err kind
fatal kind (some a) = ok a

abbrev pub or_default : {A : Type 0} → A → Option A → A
or_default d none = d
or_default d (some a) = a

infixl 10 ◌>>=◌
unfoldable pub ◌>>=◌ : {A B : Type 0} → Result A → (A → Result B) → Result B
m >>= f = elim m [
  | ok a ↦ f a
  | err e ↦ err e
  | l3afd.Exec.Result.panic ↦ l3afd.Exec.Result.panic
  | l3afd.Exec.Result.blocked ↦ l3afd.Exec.Result.blocked
]

module _ (r : Reader) where
  unfoldable pub load_config_string_enc_key : String → String → Option String
  load_config_string_enc_key group field = r.string_at group field

  unfoldable pub load_config_string : String → String → Result String
  unfolding load_config_string_enc_key
  load_config_string group field = fatal "text" (load_config_string_enc_key group field)

  unfoldable pub load_optional_config_string : String → String → String → String
  unfolding load_config_string_enc_key
  load_optional_config_string group field default_value =
      or_default default_value (load_config_string_enc_key group field)

  unfoldable pub load_config_bool : String → String → Result Bool
  load_config_bool group field = fatal "logical" (r.bool_at group field)

  unfoldable pub load_optional_config_bool : String → String → Bool → Bool
  load_optional_config_bool group field default_value =
      or_default default_value (r.bool_at group field)

  unfoldable pub load_config_int : String → String → Result ℤ
  load_config_int group field = fatal "integer" (r.int_at group field)

  unfoldable pub load_optional_config_int : String → String → ℤ → ℤ
  load_optional_config_int group field default_value =
      or_default default_value (r.int_at group field)

  unfoldable pub load_config_duration : String → String → Result ℤ
  unfolding load_config_string
  load_config_duration group field = do
    value ← load_config_string group field
    fatal "duration" (r.parse_duration value)

  -- A field that is empty counts as absent.
  unfoldable pub load_optional_config_duration : String → String → ℤ → ℤ
  unfolding load_optional_config_string
  load_optional_config_duration group field default_value =
      let string_value = load_optional_config_string group field "" in
      if string_value == ""
      then default_value
      else or_default default_value (r.parse_duration string_value)

  unfoldable pub load_config_url : String → String → Result String
  unfolding load_config_string
  load_config_url group field = do
    value ← load_config_string group field
    fatal "url" (r.parse_url value)

  unfoldable pub load_optional_config_url : String → String → String → String
  unfolding load_optional_config_string
  load_optional_config_url group field default_value =
      let string_value = load_optional_config_string group field "" in
      if string_value == ""
      then default_value
      else or_default default_value (r.parse_url string_value)

  abbrev split_csv : String → Result (List String)
  split_csv value =
      let csv_str = trim_space value in
      if csv_str == "" then ok [] else fatal "CSV string" (r.read_csv csv_str)

  unfoldable pub load_config_string_csv : String → String → Result (List String)
  unfolding load_config_string
  load_config_string_csv group field = do value ← load_config_string group field; split_csv value

  -- A value that is present and no CSV ends the daemon here too.
  unfoldable pub load_optional_config_string_csv :
      String → String → List String → Result (List String)
  unfolding load_config_string_enc_key
  load_optional_config_string_csv group field default_value =
      elim (load_config_string_enc_key group field) [
        | none ↦ ok default_value
        | some val ↦ split_csv val
      ]
