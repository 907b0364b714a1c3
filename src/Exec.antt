-- ===== src/Exec.antt =====
-- Statements of the daemon: they change the state and return a value, return an error, panic, or
-- block for ever. What was changed before an error stays changed, so the state comes back beside
-- every outcome. An error is the message of its `fmt.Errorf` without the arguments.
pub mod After
pub mod Answers
use l3afd.Prelude.{Bool, true, false, String, Option, none, some, if◌then◌else◌}

pub data Result {ℓ} (A : Type ℓ) : Type ℓ where
  ok : A → Result A
  err : String → Result A
  panic : Result A
  blocked : Result A

-- `S` is the state.
abbrev pub Exec {ℓ} : Type ℓ → Type ℓ → Type ℓ
Exec S A = S → Result A × S

module _ {ℓ} {S A : Type ℓ} where
  unfoldable pub pure : A → Exec S A
  pure a s = (ok a, s)

  unfoldable pub fail : String → Exec S A
  fail e s = (err e, s)

  unfoldable pub panics : Exec S A
  panics s = (panic, s)

  unfoldable pub blocks : Exec S A
  blocks s = (blocked, s)

  unfoldable pub gets : (S → A) → Exec S A
  gets f s = (ok (f s), s)

module _ {ℓ} {S A B : Type ℓ} where
  abbrev pub continue : Result A → (A → Exec S B) → Exec S B
  continue (ok a) f s = f a s
  continue (err e) f s = (err e, s)
  continue panic f s = (panic, s)
  continue blocked f s = (blocked, s)

  infixl 10 ◌>>=◌ ◌>>◌
  unfoldable pub ◌>>=◌ : Exec S A → (A → Exec S B) → Exec S B
  ◌>>=◌ m f s = let (r, s') = m s in continue r f s'

  abbrev pub ◌>>◌ : Exec S A → Exec S B → Exec S B
  m >> n = m >>= λ _. n

abbrev pub rename_error : {A : Type 0} → String → Result A → Result A
rename_error e (ok a) = ok a
rename_error e (err _) = err e
rename_error e panic = panic
rename_error e blocked = blocked

abbrev pub succeeded : {A : Type 0} → Result A → Result Bool
succeeded (ok a) = ok true
succeeded (err _) = ok false
succeeded panic = panic
succeeded blocked = blocked

abbrev pub value_of : {A : Type 0} → Result A → Result (Option A)
value_of (ok a) = ok (some a)
value_of (err _) = ok none
value_of panic = panic
value_of blocked = blocked

-- `if x == nil { … } else { … x … }`
unfoldable pub on_option : {A B : Type 0} → Option A → B → (A → B) → B
on_option none n k = n
on_option (some a) n k = k a

module _ {S : Type 0} where
  unfoldable pub modify : (S → S) → Exec S (Unit {0})
  modify f s = (ok tt, f s)

  -- `if err := m; err != nil { return fmt.Errorf(e) }`
  unfoldable pub wrap : {A : Type 0} → String → Exec S A → Exec S A
  wrap e m s = let (r, s') = m s in (rename_error e r, s')

  -- The call's error as a value: true where the call returned no error.
  unfoldable pub try : {A : Type 0} → Exec S A → Exec S Bool
  try m s = let (r, s') = m s in (succeeded r, s')

  -- The returned value, or none for an error.
  unfoldable pub attempt : {A : Type 0} → Exec S A → Exec S (Option A)
  attempt m s = let (r, s') = m s in (value_of r, s')

  abbrev pub when : Bool → Exec S (Unit {0}) → Exec S (Unit {0})
  when b m = if b then m else pure tt

  -- `if !b { return fmt.Errorf(e) }`
  abbrev pub check : Bool → String → Exec S (Unit {0})
  check b e = if b then pure tt else fail e

  -- A pointer that is used without a test: nil panics.
  abbrev pub deref : {A : Type 0} → Option A → Exec S A
  deref none = panics
  deref (some a) = pure a

  abbrev pub some_or : {A : Type 0} → Option A → String → Exec S A
  some_or none e = fail e
  some_or (some a) e = pure a
