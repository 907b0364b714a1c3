-- ===== src/Kf/Leaves.antt =====
-- Statements that leave what is known of one struct.
use l3afd.Prelude.{Bool, true, false, String, Option, none, some, if◌then◌else◌}
use l3afd.Os.{Os}
use l3afd.Stats.{Stats}
use l3afd.Exec.{
  on_option, Result, ok, err, panic, blocked, pure, fail, panics, blocks, deref, some_or, wrap, try,
  ◌>>=◌,
}
use l3afd.Exec.After.{Ensures, always-Ensures, bind-Ensures}
use l3afd.Kf.ElementList.{Ref}
use l3afd.Kf.State.{Bpf, State, Kf}
use l3afd.Kf.Access.{call, sleep, read, publish}

module _ ⦃os : Os⦄ (b : Ref) (P : Bpf → Type 0) where
  pub record Leaves {A : Type 0} (m : Kf A) : Type 0 where
    pub at : (s : State os) → P (s.bpfs b) → P ((m s).1.bpfs b)

module _ ⦃os : Os⦄ {b : Ref} {P : Bpf → Type 0} {A : Type 0} where
  pub Leaves-pure : (a : A) → Leaves b P (pure a)
  unfolding pure
  Leaves-pure a = record { at = λ s p. p }

  pub Leaves-fail : (e : String) → Leaves b P {A = A} (fail e)
  unfolding fail
  Leaves-fail e = record { at = λ s p. p }

  pub Leaves-panics : Leaves b P {A = A} panics
  unfolding panics
  Leaves-panics = record { at = λ s p. p }

  pub Leaves-blocks : Leaves b P {A = A} blocks
  unfolding blocks
  Leaves-blocks = record { at = λ s p. p }

  pub Leaves-call : (f : os.World → A × os.World) → Leaves b P (call f)
  unfolding call
  Leaves-call f = record { at = λ s p. p }

  pub Leaves-deref : (o : Option A) → Leaves b P (deref o)
  Leaves-deref none = Leaves-panics
  Leaves-deref (some a) = Leaves-pure a

  pub Leaves-some_or : (o : Option A) (e : String) → Leaves b P (some_or o e)
  Leaves-some_or none e = Leaves-fail e
  Leaves-some_or (some a) e = Leaves-pure a

  pub Leaves-if :
      (c : Bool) (m n : Kf A) → Leaves b P m → Leaves b P n → Leaves b P (if c then m else n)
  Leaves-if true m n p q = p
  Leaves-if false m n p q = q

  pub Leaves-wrap : (e : String) (m : Kf A) → Leaves b P m → Leaves b P (wrap e m)
  unfolding wrap
  Leaves-wrap e m p = record { at = λ s h. p.at s h }

  pub Leaves-try : (m : Kf A) → Leaves b P m → Leaves b P (try m)
  unfolding try
  Leaves-try m p = record { at = λ s h. p.at s h }

  continue-left :
      {B : Type 0} (t : State os) (r : Result B) (f : B → Kf A)
      → P (t.bpfs b)
      → ((x : B) → Leaves b P (f x))
      → P ((l3afd.Exec.continue r f t).1.bpfs b)
  continue-left t (ok x) f h k = (k x).at t h
  continue-left t (err e) f h k = h
  continue-left t panic f h k = h
  continue-left t blocked f h k = h

  pub Leaves-bind :
      {B : Type 0} (m : Kf B) (f : B → Kf A)
      → Leaves b P m
      → ((x : B) → Leaves b P (f x))
      → Leaves b P (m >>= f)
  unfolding ◌>>=◌
  Leaves-bind m f p k = record { at = λ s h. continue-left (m s).1 (m s).0 f (p.at s h) k }

  pub Leaves-Ensures :
      (m : Kf A) (s : State os) → Leaves b P m → P (s.bpfs b) → Ensures m s (λ _ t. P (t.bpfs b))
  Leaves-Ensures m s l h = always-Ensures m s (λ t. P (t.bpfs b)) (l.at s h)

module _ ⦃os : Os⦄ {b : Ref} {P : Bpf → Type 0} where
  pub Leaves-sleep : Leaves b P sleep
  unfolding sleep
  Leaves-sleep = record { at = λ s p. p }

  pub Leaves-read : (r : Ref) → Leaves b P (read r)
  unfolding read
  Leaves-read r = record { at = λ s p. p }

  pub Leaves-publish : (f : Stats → Stats) → Leaves b P (publish f)
  unfolding publish
  Leaves-publish f = record { at = λ s p. p }

-- A statement that leaves it, and what stands behind.
pub after-Leaves :
    ⦃os : Os⦄ {A B : Type 0} {Q : A → State os → Type 0} {f : B → Kf A} (b : Ref) (P : Bpf → Type 0)
    (m : Kf B) (s : State os)
    → Leaves b P m
    → P (s.bpfs b)
    → ((x : B) (t : State os) → P (t.bpfs b) → Ensures (f x) t Q)
    → Ensures (m >>= f) s Q
after-Leaves {Q = Q} {f = f} b P m s l h k =
    bind-Ensures Q (λ _ t. P (t.bpfs b)) m f s (Leaves-Ensures m s l h) k

pub ruleset leaves_rules = (
  Leaves-pure, Leaves-fail, Leaves-panics, Leaves-blocks, Leaves-call, Leaves-deref, Leaves-some_or,
  Leaves-if, Leaves-wrap, Leaves-try, Leaves-bind, Leaves-sleep, Leaves-read, Leaves-publish,
)
