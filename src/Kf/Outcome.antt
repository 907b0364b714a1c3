-- ===== src/Kf/Outcome.antt =====
-- What holds of a statement's outcome and of the view it leaves: `P` where it returns a value, `E`
-- where it returns an error, panics or blocks.
use l3afd.Prelude.{
  ◌≡◌, refl, sym, subst, Bool, true, false, String, Option, none, some, if◌then◌else◌,
}
use l3afd.Os.{Os}
use l3afd.Exec.{
  on_option, Result, ok, err, panic, blocked, wrap, try, pure, gets, fail, panics, deref, some_or,
  ◌>>=◌,
}
use l3afd.Kf.ElementList.{Ref, Chain}
use l3afd.Kf.State.{Bpf, Direction, State, Kf}
use l3afd.Kf.Access.{read, write, alloc, get_chain, set_chain, chain_at, with_chain, write_bpf}
use l3afd.Kf.Quiet.{Keeps}
use l3afd.Kf.View.{View, view, view-Quiet}

abbrev pub Post : {A : Type 0} → (A → View → Type 0) → (View → Type 0) → Result A → View → Type 0
Post P E (ok a) v = P a v
Post P E (err _) v = E v
Post P E panic v = E v
Post P E blocked v = E v

module _ ⦃os : Os⦄ {A : Type 0} where
  pub record Outcome (m : Kf A) (s : State os) (P : A → View → Type 0) (E : View → Type 0)
      : Type 0 where
    pub at : Post P E (m s).0 (view (m s).1)

module _ ⦃os : Os⦄ {A : Type 0} {P : A → View → Type 0} {E : View → Type 0} where
  pub pure-Outcome : (a : A) (s : State os) → P a (view s) → Outcome (pure a) s P E
  unfolding pure
  pure-Outcome a s p = record { at = p }

  pub panics-Outcome : (s : State os) → E (view s) → Outcome panics s P E
  unfolding panics
  panics-Outcome s p = record { at = p }

  pub quiet-Outcome :
      (m : Kf A) (s : State os) → Keeps m → ((a : A) → P a (view s)) → E (view s) → Outcome m s P E
  quiet-Outcome m s k p e = record {
    at = outcome (m s).0 (view (m s).1) (view-Quiet s (m s).1 (k.at s));
  }
    where
      outcome : (r : Result A) (v : View) → v ≡ view s → Post P E r v
      outcome (ok a) v q = subst (λ v. P a v) (sym q) (p a)
      outcome (err _) v q = subst E (sym q) e
      outcome panic v q = subst E (sym q) e
      outcome blocked v q = subst E (sym q) e

  pub wrap-Outcome :
      (e : String) (m : Kf A) (s : State os) → Outcome m s P E → Outcome (wrap e m) s P E
  unfolding wrap
  wrap-Outcome e m s p = record { at = renamed (m s).0 (view (m s).1) p.at }
    where
      renamed : (r : Result A) (v : View) → Post P E r v → Post P E (l3afd.Exec.rename_error e r) v
      renamed (ok a) v p = p
      renamed (err _) v p = p
      renamed panic v p = p
      renamed blocked v p = p

module _ ⦃os : Os⦄ {A : Type 0} {P : A → View → Type 0} {E : View → Type 0} where
  continue-Outcome :
      {B : Type 0} (R : B → View → Type 0) (F : View → Type 0) (r : Result B) (f : B → Kf A)
      (t : State os)
      → Post R F r (view t)
      → ((b : B) → R b (view t) → Outcome (f b) t P E)
      → (F (view t) → E (view t))
      → Post P E (l3afd.Exec.continue r f t).0 (view (l3afd.Exec.continue r f t).1)
  continue-Outcome R F (ok b) f t p k g = (k b p).at
  continue-Outcome R F (err _) f t p k g = g p
  continue-Outcome R F panic f t p k g = g p
  continue-Outcome R F blocked f t p k g = g p

  pub bind-Outcome :
      {B : Type 0} (R : B → View → Type 0) (F : View → Type 0) (m : Kf B) (f : B → Kf A)
      (s : State os)
      → Outcome m s R F
      → ((b : B) (t : State os) → R b (view t) → Outcome (f b) t P E)
      → ((v : View) → F v → E v)
      → Outcome (m >>= f) s P E
  unfolding ◌>>=◌
  bind-Outcome R F m f s p k g = record {
    at = continue-Outcome R F (m s).0 f (m s).1 p.at (λ b q. k b (m s).1 q) (g (view (m s).1));
  }

  -- A statement that leaves the view alone, and then another.
  pub then-Outcome :
      {B : Type 0} (m : Kf B) (f : B → Kf A) (s : State os)
      → Keeps m
      → ((b : B) (t : State os) → view t ≡ view s → Outcome (f b) t P E)
      → E (view s)
      → Outcome (m >>= f) s P E
  then-Outcome m f s k h e =
      bind-Outcome (λ b v. v ≡ view s) (λ v. v ≡ view s) m f s
        (quiet-Outcome m s k (λ b. refl) refl) h (λ v q. subst E (sym q) e)

-- The statements whose effect is known.
module _ ⦃os : Os⦄ {A : Type 0} {P : A → View → Type 0} {E : View → Type 0} (s : State os) where
  pub get_chain-Outcome :
      (d : Direction) (iface : String) (f : Option Chain → Kf A)
      → Outcome (f (chain_at s.configs d iface)) s P E
      → Outcome (get_chain d iface >>= f) s P E
  unfolding get_chain ◌>>=◌
  get_chain-Outcome d iface f p = record { at = p.at }

  pub gets-Outcome :
      {B : Type 0} (g : State os → B) (f : B → Kf A)
      → Outcome (f (g s)) s P E
      → Outcome (gets g >>= f) s P E
  unfolding gets ◌>>=◌
  gets-Outcome g f p = record { at = p.at }

  pub read-Outcome :
      (r : Ref) (f : Bpf → Kf A) → Outcome (f (s.bpfs r)) s P E → Outcome (read r >>= f) s P E
  unfolding read ◌>>=◌
  read-Outcome r f p = record { at = p.at }

  pub return-Outcome :
      {B : Type 0} (b : B) (f : B → Kf A) → Outcome (f b) s P E → Outcome (pure b >>= f) s P E
  unfolding pure ◌>>=◌
  return-Outcome b f p = record { at = p.at }

  pub set_chain-Outcome :
      (d : Direction) (iface : String) (l : Option Chain) (f : Unit {0} → Kf A)
      → Outcome (f tt) (record s { configs = with_chain s.configs d iface l }) P E
      → Outcome (set_chain d iface l >>= f) s P E
  unfolding set_chain ◌>>=◌
  set_chain-Outcome d iface l f p = record { at = p.at }

  pub write-Outcome :
      (r : Ref) (g : Bpf → Bpf) (f : Unit {0} → Kf A)
      → Outcome (f tt) (record s { bpfs = write_bpf s.bpfs r (g (s.bpfs r)) }) P E
      → Outcome (write r g >>= f) s P E
  unfolding write ◌>>=◌
  write-Outcome r g f p = record { at = p.at }

  pub alloc-Outcome :
      (b : Bpf) (f : Ref → Kf A)
      → Outcome
          (f s.next_ref)
          (record s {
            bpfs = write_bpf s.bpfs s.next_ref b;
            next_ref = l3afd.Prelude.suc s.next_ref;
          })
          P
          E
      → Outcome (alloc b >>= f) s P E
  unfolding alloc ◌>>=◌
  alloc-Outcome b f p = record { at = p.at }

-- The same view, spelled otherwise.
pub Outcome-along :
    ⦃os : Os⦄ {A : Type 0} {m : Kf A} {s : State os} (v w : View)
    → v ≡ w
    → Outcome m s (λ _ u. u ≡ v) (λ u. u ≡ v)
    → Outcome m s (λ _ u. u ≡ w) (λ u. u ≡ w)
Outcome-along {m = m} {s = s} v w p o = subst (λ x. Outcome m s (λ _ u. u ≡ x) (λ u. u ≡ x)) p o

-- Weaker properties of the same outcome.
pub Outcome-mono :
    ⦃os : Os⦄ {A : Type 0} {m : Kf A} {s : State os} (P Q : A → View → Type 0) (E F : View → Type 0)
    → ((a : A) (v : View) → P a v → Q a v)
    → ((v : View) → E v → F v)
    → Outcome m s P E
    → Outcome m s Q F
Outcome-mono {A = A} {m = m} {s = s} P Q E F f g o = record {
  at = weaker (m s).0 (view (m s).1) o.at;
}
  where
    weaker : (r : Result A) (v : View) → Post P E r v → Post Q F r v
    weaker (ok a) v p = f a v p
    weaker (err _) v p = g v p
    weaker panic v p = g v p
    weaker blocked v p = g v p
