-- ===== src/Kf/Artifacts/Quiet.antt =====
-- Fetching artifacts is quiet.
use l3afd.Prelude.{String, List, [], ◌∷◌, Bool}
use l3afd.Config.{Config}
use l3afd.Os.{Os, Entry}
use l3afd.Kf.ElementList.{Ref}
use l3afd.Kf.Quiet.{Keeps, quiet_rules}
use l3afd.Kf.Artifacts.{
  get_platform, extract_zip_entry, extract_zip, extract_tar_entry, extract_tar, unpack,
  get_artifacts, verify_and_get_artifacts,
}

module _ ⦃os : Os⦄ where
  get_platform-Keeps : Keeps get_platform
  unfolding get_platform
  get_platform-Keeps = search quiet_rules depth 30

  extract_zip_entry-Keeps : (dir : String) (e : Entry) → Keeps (extract_zip_entry dir e)
  unfolding extract_zip_entry
  extract_zip_entry-Keeps dir e = search quiet_rules depth 30

  extract_zip-Keeps : (dir : String) (es : List Entry) → Keeps (extract_zip dir es)
  unfolding extract_zip
  extract_zip-Keeps dir [] = search quiet_rules
  extract_zip-Keeps dir (e ∷ es) =
      search (quiet_rules, extract_zip_entry-Keeps, λ (d : String). extract_zip-Keeps d es) depth 30

  extract_tar_entry-Keeps : (dir : String) (e : Entry) → Keeps (extract_tar_entry dir e)
  unfolding extract_tar_entry
  extract_tar_entry-Keeps dir e = search quiet_rules depth 30

  extract_tar-Keeps :
      (dir : String) (es : List Entry) (complete : Bool) → Keeps (extract_tar dir es complete)
  unfolding extract_tar
  extract_tar-Keeps dir [] complete = search quiet_rules
  extract_tar-Keeps dir (e ∷ es) complete =
      search (quiet_rules, extract_tar_entry-Keeps, λ (d : String). extract_tar-Keeps d es complete)
        depth 30

  unpack-Keeps : (dir artifact body : String) → Keeps (unpack dir artifact body)
  unfolding unpack
  unpack-Keeps dir artifact body =
      search (quiet_rules, extract_zip-Keeps, extract_tar-Keeps) depth 30

  get_artifacts-Keeps : (b : Ref) (conf : Config) → Keeps (get_artifacts b conf)
  unfolding get_artifacts
  get_artifacts-Keeps b conf = search (quiet_rules, get_platform-Keeps, unpack-Keeps) depth 30

  pub verify_and_get_artifacts-Keeps :
      (b : Ref) (conf : Config) → Keeps (verify_and_get_artifacts b conf)
  unfolding verify_and_get_artifacts
  verify_and_get_artifacts-Keeps b conf = search (quiet_rules, get_artifacts-Keeps) depth 30
