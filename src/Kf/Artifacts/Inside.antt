-- ===== src/Kf/Artifacts/Inside.antt =====
-- Where unpacking an archive writes.
use Prim.Native.String
use text.Mathlib.Text.{starts_with}
use l3afd.Prelude.{◌≡◌, refl, Bool, true, false, not, String, List, [], ◌∷◌, if◌then◌else◌, arith}
use l3afd.Prelude.Text.{contains, clean, join}
use l3afd.Os.{Os, Entry}
use l3afd.Exec.{Result, ok, err, panic, blocked, pure, fail, check, ◌>>=◌, ◌>>◌}
use l3afd.Kf.State.{State, Kf}
use l3afd.Kf.Access.{call}
use l3afd.Kf.Artifacts.{extract_zip_entry, extract_zip, extract_tar_entry, extract_tar}

-- A property of the system that a statement keeps.
module _ ⦃os : Os⦄ (I : os.World → Type 0) where
  record Safe {A : Type 0} (m : Kf A) : Type 0 where
    at : (s : State os) → I s.world → I (m s).1.world

  Safe-pure : {A : Type 0} (a : A) → Safe (pure a)
  unfolding pure
  Safe-pure a = record { at = λ s i. i }

  Safe-fail : {A : Type 0} (e : String) → Safe {A = A} (fail e)
  unfolding fail
  Safe-fail e = record { at = λ s i. i }

  Safe-call :
      {A : Type 0} (f : os.World → A × os.World)
      → ((w : os.World) → I w → I (f w).1)
      → Safe (call f)
  unfolding call
  Safe-call f p = record { at = λ s i. p s.world i }

  Safe-if :
      {A : Type 0} (b : Bool) (m n : Kf A)
      → (b ≡ true → Safe m)
      → (b ≡ false → Safe n)
      → Safe (if b then m else n)
  Safe-if true m n p q = p refl
  Safe-if false m n p q = q refl

  continue-safe :
      {A B : Type 0} (r : Result B) (f : B → Kf A) (t : State os)
      → I t.world
      → ((b : B) → Safe (f b))
      → I (l3afd.Exec.continue r f t).1.world
  continue-safe (ok b) f t i k = (k b).at t i
  continue-safe (err _) f t i k = i
  continue-safe panic f t i k = i
  continue-safe blocked f t i k = i

  Safe-bind :
      {A B : Type 0} (m : Kf B) (f : B → Kf A) → Safe m → ((b : B) → Safe (f b)) → Safe (m >>= f)
  unfolding ◌>>=◌
  Safe-bind m f p k = record { at = λ s i. continue-safe (m s).0 f (m s).1 (p.at s i) k }

  Safe-check : (b : Bool) (e : String) → Safe (check b e)
  Safe-check true e = Safe-pure tt
  Safe-check false e = Safe-fail e

  -- What stands behind a check may use it.
  Safe-guard :
      {A : Type 0} (b : Bool) (e : String) (m : Kf A) → (b ≡ true → Safe m) → Safe (check b e >> m)
  unfolding ◌>>=◌ pure fail
  Safe-guard true e m p = record { at = λ s i. (p refl).at s i }
  Safe-guard false e m p = record { at = λ s i. i }

  made_dir :
      (path : String)
      → ((w : os.World) → I w → I (os.mkdir_all path w).1)
      → Safe (call (os.mkdir_all path) >>= λ made. pure tt)
  made_dir path p =
      Safe-bind (call (os.mkdir_all path)) (λ made. pure tt) (Safe-call (os.mkdir_all path) p)
        (λ made. Safe-pure tt)

  checked_dir :
      (path e : String)
      → ((w : os.World) → I w → I (os.mkdir_all path w).1)
      → Safe (call (os.mkdir_all path) >>= λ made. check made e)
  checked_dir path e p =
      Safe-bind (call (os.mkdir_all path)) (λ made. check made e) (Safe-call (os.mkdir_all path) p)
        (λ made. Safe-check made e)

  written_file :
      (path body e : String)
      → ((w : os.World) → I w → I (os.write_file path body w).1)
      → Safe (call (os.write_file path body) >>= λ written. check written e)
  written_file path body e p =
      Safe-bind (call (os.write_file path body)) (λ written. check written e)
        (Safe-call (os.write_file path body) p) (λ written. Safe-check written e)

  module _ (dir : String)
      (write : (name body : String) (w : os.World)
        → starts_with (join (dir ∷ name ∷ [])) (String.◌++◌ (clean dir) "/") ≡ true
        → I w
        → I (os.write_file (join (dir ∷ name ∷ [])) body w).1)
      (mkdir : (name : String) (w : os.World)
        → starts_with (join (dir ∷ name ∷ [])) (String.◌++◌ (clean dir) "/") ≡ true
        → I w
        → I (os.mkdir_all (join (dir ∷ name ∷ [])) w).1) where
    zip_entry-Safe : (file : Entry) → Safe (extract_zip_entry dir file)
    unfolding extract_zip_entry
    zip_entry-Safe file = Safe-guard _ _ _ (λ readable. Safe-guard _ _ _ (λ inside.
        Safe-if file.is_directory _ _
          (λ d. made_dir (join (dir ∷ file.name ∷ [])) (λ w. mkdir file.name w inside))
          (λ f.
            written_file (join (dir ∷ file.name ∷ [])) file.body "unzip failed to create file"
              (λ w. write file.name file.body w inside))))

    zip-Safe : (files : List Entry) → Safe (extract_zip dir files)
    unfolding extract_zip
    zip-Safe [] = Safe-pure tt
    zip-Safe (file ∷ files) = Safe-bind _ _ (zip_entry-Safe file) (λ _. zip-Safe files)

    -- Unpacking a zip archive writes files and makes directories only at paths that are the directory
    -- joined (`filepath.Join`) with an entry's name and that begin with the cleaned directory and a
    -- slash, whatever names are in it: a property of the system that is kept by doing so at such
    -- paths is kept.
    pub extract_zip-stays_inside :
        (files : List Entry) (s : State os) → I s.world → I (extract_zip dir files s).1.world
    extract_zip-stays_inside files s i = (zip-Safe files).at s i

  module _ (dir : String)
      (write : (name body : String) (w : os.World)
        → contains name ".." ≡ false
        → I w
        → I (os.write_file (join (dir ∷ name ∷ [])) body w).1)
      (mkdir : (name : String) (w : os.World)
        → contains name ".." ≡ false
        → I w
        → I (os.mkdir_all (join (dir ∷ name ∷ [])) w).1) where
    not-true : (b : Bool) → not b ≡ true → b ≡ false
    not-true b p = ground arith

    tar_entry-Safe : (header : Entry) → Safe (extract_tar_entry dir header)
    unfolding extract_tar_entry
    tar_entry-Safe header = Safe-guard _ _ _ (λ clean_name.
        Safe-if header.is_directory _ _
          (λ d.
            checked_dir (join (dir ∷ header.name ∷ [])) "untar failed to create directories"
              (λ w. mkdir header.name w (not-true (contains header.name "..") clean_name)))
          (λ f.
            written_file (join (dir ∷ header.name ∷ [])) header.body "untar failed to create file"
              (λ w.
                write header.name header.body w (not-true (contains header.name "..") clean_name))))

    tar-Safe : (headers : List Entry) (complete : Bool) → Safe (extract_tar dir headers complete)
    unfolding extract_tar
    tar-Safe [] complete = Safe-check complete "untar failed"
    tar-Safe (header ∷ headers) complete =
        Safe-bind _ _ (tar_entry-Safe header) (λ _. tar-Safe headers complete)

    -- Unpacking a tar archive writes only to paths that are the directory joined with a name without
    -- two dots in a row, whatever names are in it.
    pub extract_tar-stays_inside :
        (headers : List Entry) (complete : Bool) (s : State os)
        → I s.world
        → I (extract_tar dir headers complete s).1.world
    extract_tar-stays_inside headers complete s i = (tar-Safe headers complete).at s i
