-- ===== src/Pidfile/Instances.antt =====
-- Two instances of the daemon and one PID file.
use Prim.Native.String.{◌++◌}
use l3afd.Prelude.{
  Option, none, some, String, ◌≡◌, ◌≢◌, refl, sym, subst, ◌∙◌, ap, ℕ, pos, ◌<◌, ◌^◌, Bool, true,
  false, String, eq_ℤ, eq_ℤ_iff, ◌==◌, if◌then◌else◌, Bool-cases, inl, inr, arith,
}
use l3afd.Prelude.Decimal.{itoa}
use l3afd.Prelude.Decimal.RoundTrip.{atoi-itoa, itoa-ne-nil}
use l3afd.Os.{Os, content}
use l3afd.Files.{FileSystem}
use l3afd.Sys.{ask}
use l3afd.Exec.{Result, ok, err, pure, fail, wrap, ◌>>=◌}
use l3afd.Pidfile.{
  remove_pid, create_pid, compare_names, check_content, check_pid_conflict, text_of,
}

-- What becomes of a stale file.
abbrev pub removal_verdict : Bool → Result (Unit {0})
removal_verdict true = ok tt
removal_verdict false = err "removal failed, please manually remove"

-- What becomes of the file of a process that runs, by the command names as far as they can be read.
abbrev pub names_verdict : Option String → Option String → Bool → Result (Unit {0})
names_verdict none other removed =
    err "could not read this processes command name from the proc filesystem"
names_verdict (some own) none removed =
    err "could not read old processes command name from the proc filesystem"
names_verdict (some own) (some other) removed =
    if own == other
    then err "a previous instance of this process is running"
    else removal_verdict removed

module _ ⦃os : Os⦄ where
  -- An instance that finds its own ID in the file goes on.
  own-content :
      (name : String) (pid : ℕ) (w : os.World)
      → pid < 2 ^ 63
      → (os.getpid w).0 ≡ pid
      → (check_content name (content (itoa pid)) w).0 ≡ ok tt
  unfolding check_content ask ◌>>=◌ pure
  own-content name pid w h me = elim (Bool-cases (itoa pid == "")) [
    | inl empty ↦ rw empty
    | inr text ↦ rw (text, atoi-itoa pid h, me, (eq_ℤ_iff (pos pid) (pos pid)).1 refl)
  ]

  created :
      (name : String) (w : os.World)
      → (create_pid name w).0 ≡ ok tt
      → (os.write_file name (itoa (os.getpid w).0) (os.getpid w).1).0 ≡ true
  unfolding create_pid ask ◌>>=◌ pure fail
  created name w h =
      elim (Bool-cases (os.write_file name (itoa (os.getpid w).0) (os.getpid w).1).0) [
        | inl written ↦ written
        | inr failed ↦ absurd (ground (arith, failed, h))
      ]

  created-world :
      (name : String) (w : os.World)
      → (os.write_file name (itoa (os.getpid w).0) (os.getpid w).1).0 ≡ true
      → (create_pid name w).1 ≡ (os.write_file name (itoa (os.getpid w).0) (os.getpid w).1).1
  unfolding create_pid ask ◌>>=◌ pure
  created-world name w h = rw h

  checked-content :
      (name body : String) (w : os.World)
      → (os.read_file name w).0 ≡ content body
      → check_pid_conflict name w ≡ check_content name (content body) (os.read_file name w).1
  unfolding check_pid_conflict ask ◌>>=◌
  checked-content name body w h = ap (λ r. check_content name r (os.read_file name w).1) h

  removed-stale :
      (name : String) (removed : Bool) (w : os.World)
      → (os.remove_file name w).0 ≡ removed
      → (wrap "removal failed, please manually remove" (remove_pid name) w).0
        ≡ removal_verdict removed
  unfolding remove_pid wrap ask ◌>>=◌ pure fail
  removed-stale name removed w h = elim (Bool-cases removed) [
    | inl yes_removed ↦ rw (h, yes_removed)
    | inr not_removed ↦ rw (h, not_removed)
  ]

  compared-names :
      (name : String) (own other : Option String) (pid : ℕ) (removed : Bool) (w : os.World)
      → ((v : os.World) → text_of (os.read_file "/proc/self/comm" v).0 ≡ own)
      → ((v : os.World) → text_of (os.read_file ("/proc/" ++ (itoa pid ++ "/comm")) v).0 ≡ other)
      → ((v : os.World) → (os.remove_file name v).0 ≡ removed)
      → (compare_names name (pos pid) w).0 ≡ names_verdict own other removed
  unfolding compare_names ask ◌>>=◌ pure fail
  compared-names name none other pid removed w mine theirs gone = rw (mine w)
  compared-names name (some own) none pid removed w mine theirs gone =
      rw (mine w, theirs (os.read_file "/proc/self/comm" w).1)
  compared-names name (some own) (some other) pid removed w mine theirs gone =
      rw (mine w, theirs (os.read_file "/proc/self/comm" w).1)
        (elim (Bool-cases (own == other)) [
          | inl same ↦ rw same
          | inr differs ↦ rw differs (removed-stale name removed _ (gone _))
        ])

  -- The file holds the ID of another process.
  other-content :
      (name : String) (own other : Option String) (self pid : ℕ) (running removed : Bool)
      (w : os.World)
      → pid < 2 ^ 63
      → self ≢ pid
      → ((v : os.World) → (os.getpid v).0 ≡ self)
      → ((v : os.World) → (os.signal_zero (pos pid) v).0 ≡ running)
      → ((v : os.World) → text_of (os.read_file "/proc/self/comm" v).0 ≡ own)
      → ((v : os.World) → text_of (os.read_file ("/proc/" ++ (itoa pid ++ "/comm")) v).0 ≡ other)
      → ((v : os.World) → (os.remove_file name v).0 ≡ removed)
      → (check_content name (content (itoa pid)) w).0
        ≡ (if running then names_verdict own other removed else removal_verdict removed)
  unfolding check_content ask ◌>>=◌ pure
  other-content name own other self pid running removed w h differ me alive mine theirs gone =
      rw (itoa-ne-nil pid, atoi-itoa pid h, me w, not-mine)
        (rw (alive (os.getpid w).1) (elim (Bool-cases running) [
          | inl alive ↦ rw alive (compared-names name own other pid removed _ mine theirs gone)
          | inr dead ↦ rw dead (removed-stale name removed _ (gone _))
        ]))
    where
      not-mine : eq_ℤ (pos pid) (pos self) ≡ false
      not-mine = ground (arith, differ)

module _ ⦃os : Os⦄ (fs : FileSystem os) where
  -- An instance that has written its process ID is not in conflict with itself: the check that a
  -- restarted part of it makes reads the same number back and goes on.
  pub check-create :
      (name : String) (pid : ℕ) (w : os.World)
      → pid < 2 ^ 63
      → ((v : os.World) → (os.getpid v).0 ≡ pid)
      → (create_pid name w).0 ≡ ok tt
      → (check_pid_conflict name (create_pid name w).1).0 ≡ ok tt
  check-create name pid w h me done =
      let written = created name w done in
      let v = (os.write_file name (itoa (os.getpid w).0) (os.getpid w).1).1 in
      let held : fs.Holds v name (itoa pid) =
        subst (λ (n : ℕ). fs.Holds v name (itoa n)) (me w)
          (fs.written name (itoa (os.getpid w).0) (os.getpid w).1 written) in
      subst (λ u. (check_pid_conflict name u).0 ≡ ok tt) (sym (created-world name w written))
        (ap (λ (r : Result (Unit {0}) × os.World). r.0)
            (checked-content name (itoa pid) v (fs.read name (itoa pid) v held))
          ∙ own-content name pid (os.read_file name v).1 h (me (os.read_file name v).1))

  -- Where another process has its ID in the file: if that process runs, the check ends with an error
  -- where a command name cannot be read (its own is read first) or where both are the same. If it
  -- does not run, or runs under another command name, the file is stale, and the check succeeds
  -- exactly where the file can be removed.
  pub check-decides :
      (name : String) (own other : Option String) (self pid : ℕ) (running removed : Bool)
      (w : os.World)
      → pid < 2 ^ 63
      → self ≢ pid
      → fs.Holds w name (itoa pid)
      → ((v : os.World) → (os.getpid v).0 ≡ self)
      → ((v : os.World) → (os.signal_zero (pos pid) v).0 ≡ running)
      → ((v : os.World) → text_of (os.read_file "/proc/self/comm" v).0 ≡ own)
      → ((v : os.World) → text_of (os.read_file ("/proc/" ++ (itoa pid ++ "/comm")) v).0 ≡ other)
      → ((v : os.World) → (os.remove_file name v).0 ≡ removed)
      → (check_pid_conflict name w).0
        ≡ (if running then names_verdict own other removed else removal_verdict removed)
  check-decides name own other self pid running removed w h differ held me alive mine theirs gone =
      ap (λ (r : Result (Unit {0}) × os.World). r.0)
        (checked-content name (itoa pid) w (fs.read name (itoa pid) w held))
      ∙ other-content name own other self pid running removed (os.read_file name w).1 h differ me
          alive mine theirs gone
