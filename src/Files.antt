-- ===== src/Files.antt =====
-- What the daemon relies on of the file system: a file that was written holds its text until something
-- else is written or removed. A system may offer this interface or not.
pub mod Retains
use l3afd.Prelude.{◌≡◌, ◌≢◌, true, false, String, ℤ, ◌==◌}
use l3afd.Os.{Os, not_exist, content}

pub record FileSystem (os : Os) : Type 1 where
  -- In this world the file holds this text.
  pub Holds : os.World → String → String → Type 0
  pub written :
      (name body : String) (w : os.World)
      → (os.write_file name body w).0 ≡ true
      → Holds (os.write_file name body w).1 name body
  pub read :
      (name body : String) (w : os.World)
      → Holds w name body
      → (os.read_file name w).0 ≡ content body
  pub opens :
      (name body : String) (w : os.World) → Holds w name body → (os.open_file name w).0 ≡ true
  pub found :
      (name body : String) (w : os.World) → Holds w name body → (os.stat name w).0 ≢ not_exist
  -- Looking at files and processes changes no file.
  pub read_keeps :
      (name body other : String) (w : os.World)
      → Holds w name body
      → Holds (os.read_file other w).1 name body
  pub open_keeps :
      (name body other : String) (w : os.World)
      → Holds w name body
      → Holds (os.open_file other w).1 name body
  pub stat_keeps :
      (name body other : String) (w : os.World)
      → Holds w name body
      → Holds (os.stat other w).1 name body
  pub getpid_keeps :
      (name body : String) (w : os.World) → Holds w name body → Holds (os.getpid w).1 name body
  pub signal_keeps :
      (name body : String) (pid : ℤ) (w : os.World)
      → Holds w name body
      → Holds (os.signal_zero pid w).1 name body
  pub interfaces_keep :
      (name body : String) (w : os.World) → Holds w name body → Holds (os.interfaces w).1 name body
  -- Writing or removing a file changes no other.
  pub write_keeps :
      (name body other text : String) (w : os.World)
      → (other == name) ≡ false
      → Holds w name body
      → Holds (os.write_file other text w).1 name body
  pub remove_keeps :
      (name body other : String) (w : os.World)
      → (other == name) ≡ false
      → Holds w name body
      → Holds (os.remove_file other w).1 name body
