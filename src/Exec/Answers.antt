-- ===== src/Exec/Answers.antt =====
-- Statements that come to an end.
use l3afd.Prelude.{◌≡◌, refl, String, Option, none, some}
use l3afd.Exec.{Exec, Result, ok, err, panic, blocked, pure, fail, some_or, ◌>>=◌}

-- Statements that return: with a value or with an error, but neither with a panic nor never.
abbrev pub Answers : {A : Type 0} → Result A → Type 0
Answers (ok a) = Unit
Answers (err e) = Unit
Answers panic = ⊥
Answers blocked = ⊥

module _ {S A B : Type 0} where
  continue-Answers :
      (r : Result B) (f : B → Exec S A) (t : S)
      → Answers r
      → ((b : B) → r ≡ ok b → Answers (f b t).0)
      → Answers (l3afd.Exec.continue r f t).0
  continue-Answers (ok b) f t h k = k b refl
  continue-Answers (err e) f t h k = tt
  continue-Answers panic f t h k = absurd h
  continue-Answers blocked f t h k = absurd h

  pub bind-Answers :
      (m : Exec S B) (f : B → Exec S A) (s : S)
      → Answers (m s).0
      → ((b : B) → (m s).0 ≡ ok b → Answers (f b (m s).1).0)
      → Answers ((m >>= f) s).0
  unfolding ◌>>=◌
  bind-Answers m f s h k = continue-Answers (m s).0 f (m s).1 h k

module _ {S A : Type 0} where
  pub pure-Answers : (a : A) (s : S) → Answers {A = A} (pure a s).0
  unfolding pure
  pure-Answers a s = tt

  pub some_or-Answers : (o : Option A) (e : String) (s : S) → Answers (some_or o e s).0
  unfolding pure fail
  some_or-Answers none e s = tt
  some_or-Answers (some a) e s = tt

  pub some_or-ok :
      (o : Option A) (e : String) (s : S) (a : A) → (some_or o e s).0 ≡ ok a → o ≡ some a
  unfolding pure fail
  some_or-ok none e s a h = cc
  some_or-ok (some b) e s a h = cc
