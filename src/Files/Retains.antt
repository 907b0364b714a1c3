-- ===== src/Files/Retains.antt =====
-- Statements that leave one file as it is.
use l3afd.Prelude.{◌≡◌, true, false, String, Bool, Option, none, some, ◌==◌, if◌then◌else◌, ℤ}
use l3afd.Os.{Os}
use l3afd.Sys.{Sys, ask}
use l3afd.Files.{FileSystem}
use l3afd.Exec.{pure, fail, some_or, wrap, ◌>>=◌}
use l3afd.Exec.After.{bind-after}

module _ ⦃os : Os⦄ (fs : FileSystem os) (name body : String) where
  -- The statement leaves the file as it is, whatever its outcome.
  pub record Retains {A : Type 0} (m : Sys A) : Type 0 where
    pub at : (w : os.World) → fs.Holds w name body → fs.Holds (m w).1 name body

module _ ⦃os : Os⦄ {fs : FileSystem os} {name body : String} where
  pub pure-Retains : {A : Type 0} (a : A) → Retains fs name body (pure a)
  unfolding pure
  pure-Retains a = record { at = λ w h. h }

  pub fail-Retains : {A : Type 0} (e : String) → Retains fs name body {A = A} (fail e)
  unfolding fail
  fail-Retains e = record { at = λ w h. h }

  pub bind-Retains :
      {A B : Type 0} {m : Sys A} {f : A → Sys B}
      → Retains fs name body m
      → ((a : A) → Retains fs name body (f a))
      → Retains fs name body (m >>= f)
  bind-Retains {m = m} {f = f} p q = record {
    at = λ w h.
        bind-after (λ v. fs.Holds v name body) m f w (p.at w h)
          (λ a _. (q a).at (m w).1 (p.at w h));
  }

  pub wrap-Retains :
      {A : Type 0} {m : Sys A} (e : String)
      → Retains fs name body m
      → Retains fs name body (wrap e m)
  unfolding wrap
  wrap-Retains e p = record { at = λ w h. p.at w h }

  pub if-Retains :
      {A : Type 0} {m n : Sys A} (b : Bool)
      → Retains fs name body m
      → Retains fs name body n
      → Retains fs name body (if b then m else n)
  if-Retains true p q = p
  if-Retains false p q = q

  pub some_or-Retains :
      {A : Type 0} (o : Option A) (e : String) → Retains fs name body (some_or o e)
  some_or-Retains none e = fail-Retains e
  some_or-Retains (some a) e = pure-Retains a

  pub read-Retains : (other : String) → Retains fs name body (ask (os.read_file other))
  unfolding ask
  read-Retains other = record { at = λ w h. fs.read_keeps name body other w h }

  pub getpid-Retains : Retains fs name body (ask os.getpid)
  unfolding ask
  getpid-Retains = record { at = λ w h. fs.getpid_keeps name body w h }

  pub signal-Retains : (pid : ℤ) → Retains fs name body (ask (os.signal_zero pid))
  unfolding ask
  signal-Retains pid = record { at = λ w h. fs.signal_keeps name body pid w h }

  pub interfaces-Retains : Retains fs name body (ask os.interfaces)
  unfolding ask
  interfaces-Retains = record { at = λ w h. fs.interfaces_keep name body w h }

  pub write-Retains :
      (other text : String)
      → (other == name) ≡ false
      → Retains fs name body (ask (os.write_file other text))
  unfolding ask
  write-Retains other text d = record { at = λ w h. fs.write_keeps name body other text w d h }

  pub remove-Retains :
      (other : String) → (other == name) ≡ false → Retains fs name body (ask (os.remove_file other))
  unfolding ask
  remove-Retains other d = record { at = λ w h. fs.remove_keeps name body other w d h }

pub ruleset retains_rules = (
  pure-Retains, fail-Retains, some_or-Retains, read-Retains, getpid-Retains, signal-Retains,
  interfaces-Retains, write-Retains, remove-Retains, if-Retains, wrap-Retains, bind-Retains,
)
