-- ===== src/Kf/Artifacts.antt =====
-- The artifacts of a program: VerifyAndGetArtifacts and GetArtifacts of kf/bpf.go, GetPlatform of
-- kf/kf_unix.go.
pub mod Quiet
pub mod Inside
use Prim.Native.String
use text.Mathlib.Text.{starts_with}
use l3afd.Prelude.{Bool, String, List, [], ◌∷◌, not, nat_eq, if◌then◌else◌}
use l3afd.Prelude.Text.{contains, has_suffix, before_dot, trim_space, clean, join}
use l3afd.Config.{Config}
use l3afd.Models.{BpfProgram}
use l3afd.Os.{Os, Entry}
use l3afd.Exec.{pure, fail, some_or, check, ◌>>=◌, ◌>>◌}
use l3afd.Kf.ElementList.{Ref}
use l3afd.Kf.State.{Kf}
use l3afd.Kf.Access.{call, read, write}
use l3afd.Kf.PinnedMaps.{is_missing}

abbrev pub artifact_path : Config → BpfProgram → String
artifact_path conf program =
    join (conf.bpf_dir ∷ program.name ∷ program.version ∷ before_dot program.artifact ∷ [])

-- The directory that the archives are unpacked into.
abbrev pub temp_dir : Config → BpfProgram → String
temp_dir conf program = join (conf.bpf_dir ∷ program.name ∷ program.version ∷ [])

module _ ⦃os : Os⦄ where
  unfoldable pub get_platform : Kf String
  get_platform = do
    (success, out) ← call (os.run "lsb_release" ("-cs" ∷ []))
    check success "Failed to run command"
    pure (trim_space out)

  -- The body of the loop over a zip archive. A directory that cannot be made is passed over.
  unfoldable pub extract_zip_entry : String → Entry → Kf (Unit {0})
  extract_zip_entry dir file = do
    check file.readable "unzip failed"
    let path = join (dir ∷ file.name ∷ [])
    check (starts_with path (String.◌++◌ (clean dir) "/")) "invalid file path"
    if file.is_directory then (do made ← call (os.mkdir_all path); pure tt) else (do
      written ← call (os.write_file path file.body)
      check written "unzip failed to create file")

  unfoldable pub extract_zip : String → List Entry → Kf (Unit {0})
  unfolding extract_zip_entry
  extract_zip dir [] = pure tt
  extract_zip dir (file ∷ files) = extract_zip_entry dir file >> extract_zip dir files

  unfoldable pub extract_tar_entry : String → Entry → Kf (Unit {0})
  extract_tar_entry dir header = do
    check (not (contains header.name "..")) "zipped file contians filepath that includes (..)"
    let path = join (dir ∷ header.name ∷ [])
    if header.is_directory
        then (do made ← call (os.mkdir_all path); check made "untar failed to create directories")
        else (do
          written ← call (os.write_file path header.body)
          check written "untar failed to create file")

  -- `complete` is false where the archive ends with an error instead of io.EOF.
  unfoldable pub extract_tar : String → List Entry → Bool → Kf (Unit {0})
  unfolding extract_tar_entry
  extract_tar dir [] complete = check complete "untar failed"
  extract_tar dir (header ∷ headers) complete =
      extract_tar_entry dir header >> extract_tar dir headers complete

  unfoldable pub unpack : String → String → String → Kf (Unit {0})
  unfolding extract_zip extract_tar
  unpack dir artifact body =
      if has_suffix artifact ".zip"
      then (do files ← some_or (os.unzip body) "failed to create zip reader"; extract_zip dir files)
      else if has_suffix artifact ".tar.gz"
      then (do
        archive ← some_or (os.gunzip body) "failed to create Gzip reader"
        let (headers, complete) = os.untar archive
        extract_tar dir headers complete)
      else fail "unknown artifact format"

  unfoldable pub get_artifacts : Ref → Config → Kf (Unit {0})
  unfolding get_platform unpack
  get_artifacts b conf = do
    bpf ← read b
    let program = bpf.program
    kf_repo_url ← some_or (os.parse_url conf.kf_repo_url) "unknown KF repo url format"
    platform ← get_platform
    let path =
        join (kf_repo_url.path ∷ program.name ∷ program.version ∷ platform ∷ program.artifact ∷ [])
    answer ← call (os.http_get (kf_repo_url.with_path path))
    resp ← some_or answer "download failed"
    check (nat_eq resp.status_code 200) "get request returned unexpected status code"
    unpack (temp_dir conf program) program.artifact resp.body
    write b (λ bpf. record bpf { file_path = artifact_path conf program })

  unfoldable pub verify_and_get_artifacts : Ref → Config → Kf (Unit {0})
  verify_and_get_artifacts b conf = do
    bpf ← read b
    let path = artifact_path conf bpf.program
    info ← call (os.stat path)
    if is_missing info
        then get_artifacts b conf
        else write b (λ bpf. record bpf { file_path = path })
