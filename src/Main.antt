-- ===== src/Main.antt =====
-- main.go: checkKernelVersion, getKernelVersion and ReadConfigsFromConfigStore.
pub mod Kernel
pub mod Restart
pub mod Startup
use Prim.Native.Char.{code}
use Prim.Native.String.{[], ◌∷◌}
use l3afd.Prelude.{
  ℕ, ℤ, Bool, true, false, ◌&&◌, not, String, Option, none, some, List, leb_ℤ, eq_ℤ, nat_eq, ◌==◌,
  if◌then◌else◌,
}
use l3afd.Prelude.Text.{split, is_space}
use l3afd.Prelude.Decimal.{atoi}
use l3afd.Models.{L3afBpfPrograms}
use l3afd.Config.{Config}
use l3afd.Os.{
  Os, Stat, is_file, is_dir, not_exist, stat_error, ReadFile, content, no_file, read_error,
}
use l3afd.Sys.{Sys, ask}
use l3afd.Exec.{pure, fail, some_or, check, wrap, ◌>>=◌, ◌>>◌}
use l3afd.Pidfile.{text_of}

-- Sscanf: blanks before a word are skipped, but an end of the line is an error.
unfoldable pub skip_blanks : String → String
skip_blanks [] = []
skip_blanks (c ∷ s) = if is_space (code c) && not (nat_eq (code c) 10) then skip_blanks s else c ∷ s

unfoldable pub take_word : String → String × String
take_word [] = ([], [])
take_word (c ∷ s) =
    let rest = take_word s in if is_space (code c) then ([], c ∷ s) else (c ∷ rest.0, rest.1)

-- `%s`
unfoldable pub scan_word : String → Option (String × String)
unfolding skip_blanks take_word
scan_word s = let found = take_word (skip_blanks s) in if found.0 == "" then none else some found

unfoldable pub third_word : String → Option String
unfolding scan_word
third_word s = elim (scan_word s) [
  | none ↦ none
  | some (u1, s1) ↦ elim (scan_word s1) [
    | none ↦ none
    | some (u2, s2) ↦ elim (scan_word s2) [ none ↦ none | some (u3, s3) ↦ some u3 ]
  ]
]

abbrev pub at_least : Config → ℤ → ℤ → Bool
at_least conf major_ver minor_ver =
    if not (leb_ℤ major_ver conf.min_kernel_major_ver)
    then true
    else eq_ℤ major_ver conf.min_kernel_major_ver && leb_ℤ conf.min_kernel_minor_ver minor_ver

abbrev pub first_two : List String → Option (String × String)
first_two l3afd.Prelude.[] = none
first_two (l3afd.Prelude.◌∷◌ a l3afd.Prelude.[]) = none
first_two (l3afd.Prelude.◌∷◌ a (l3afd.Prelude.◌∷◌ b rest)) = some (a, b)

module _ ⦃os : Os⦄ where
  unfoldable pub get_kernel_version : Sys String
  unfolding third_word
  get_kernel_version = do
    os_version ← ask (os.read_file "/proc/version")
    text ← some_or (text_of os_version) "failed to read procfs"
    some_or (third_word text) "failed to scan procfs version"

  -- The part of checkKernelVersion behind the call of getKernelVersion.
  unfoldable pub check_version : Config → String → Sys (Unit {0})
  check_version conf kernel_version = do
    ver ← some_or (first_two (split b'.' kernel_version)) "expected minimum kernel version length 2"
    major_ver ← some_or (atoi ver.0) "failed to find kernel major version"
    minor_ver ← some_or (atoi ver.1) "failed to find kernel minor version"
    check (at_least conf major_ver minor_ver) "expected Kernel version >="

  unfoldable pub check_kernel_version : Config → Sys (Unit {0})
  unfolding get_kernel_version check_version
  check_kernel_version conf = do
    kernel_version ← wrap "failed to find kernel version" get_kernel_version
    check_version conf kernel_version

  -- The slice is nil where there is no store or it holds `null`.
  unfoldable pub read_store : String → Sys (Option (List L3afBpfPrograms))
  read_store name = do
    opened ← ask (os.open_file name)
    check opened "failed to open persistent file"
    file ← ask (os.read_file name)
    byte_value ← some_or (text_of file) "failed to read persistent file"
    some_or (os.unmarshal byte_value) "failed to unmarshal persistent config json"

  unfoldable pub read_if : Stat → String → Sys (Option (List L3afBpfPrograms))
  unfolding read_store
  read_if not_exist name = pure none
  read_if (is_file executable) name = read_store name
  read_if (is_dir executable) name = read_store name
  read_if stat_error name = read_store name

  unfoldable pub read_configs_from_config_store : Config → Sys (Option (List L3afBpfPrograms))
  unfolding read_if
  read_configs_from_config_store conf = do
    found ← ask (os.stat conf.l3af_config_store_file_name)
    read_if found conf.l3af_config_store_file_name
