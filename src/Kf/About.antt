-- ===== src/Kf/About.antt =====
-- Statements that are about one program: the configurations of all others stay as they are, and the
-- program keeps its name.
pub mod Updating
use l3afd.Prelude.{
  ◌≡◌, refl, ◌∙◌, ap, subst, Bool, true, false, String, Option, none, some, nat_eq, nat_eq_iff,
  if◌then◌else◌, Bool-cases, inl, inr,
}
use l3afd.Os.{Os}
use l3afd.Exec.{
  on_option, Result, ok, err, panic, blocked, pure, fail, panics, gets, deref, some_or, wrap, try,
  ◌>>=◌,
}
use l3afd.Kf.ElementList.{Ref, Chain}
use l3afd.Kf.ElementList.Split.{nat_eq_refl}
use l3afd.Kf.State.{Bpf, Direction, State, Kf}
use l3afd.Kf.Access.{call, read, set_chain, get_chain, write, write_bpf}
use l3afd.Kf.View.{View, view, view-Quiet}
use l3afd.Kf.Quiet.{
  Keeps, Keeps-pure, Keeps-fail, Keeps-panics, Keeps-gets, Keeps-call, Keeps-deref, Keeps-some_or,
  Keeps-read,
}

-- The program `e` keeps its name, and all others their configurations.
pub record SameOthers (e : Ref) (n : String) (v v' : View) : Type 0 where
  pub own : (v'.program e).name ≡ n
  pub others : (r : Ref) → nat_eq e r ≡ false → v'.program r ≡ v.program r

module _ ⦃os : Os⦄ where
  pub record IsAbout {A : Type 0} (e : Ref) (n : String) (m : Kf A) : Type 0 where
    pub at : (s : State os) → (s.bpfs e).program.name ≡ n → SameOthers e n (view s) (view (m s).1)

  pub set_chain-IsAbout :
      (e : Ref) (n : String) (d : Direction) (iface : String) (l : Option Chain)
      → IsAbout e n (set_chain d iface l)
  unfolding set_chain
  set_chain-IsAbout e n d iface l = record { at = λ s h. record { own = h; others = λ r q. refl } }

  pub get_chain-IsAbout :
      (e : Ref) (n : String) (d : Direction) (iface : String) → IsAbout e n (get_chain d iface)
  unfolding get_chain
  get_chain-IsAbout e n d iface = record { at = λ s h. record { own = h; others = λ r q. refl } }

  written-program :
      (h : Ref → Bpf) (r x : Ref) (b : Bpf)
      → b.program ≡ (h r).program
      → (write_bpf h r b x).program ≡ (h x).program
  written-program h r x b same = elim (Bool-cases (nat_eq r x)) [
    | inl here ↦ rw here (same ∙ ap (λ y. (h y).program) ((nat_eq_iff r x).0 here))
    | inr differs ↦ rw differs
  ]

  -- Another link leaves every configuration alone.
  pub link-IsAbout :
      (e : Ref) (n : String) (r : Ref) (map_name : String)
      → IsAbout e n (write r (λ bpf. record bpf { prev_map_name = map_name }))
  unfolding write
  link-IsAbout e n r map_name = record {
    at = λ s h. record {
      own = ap (λ (p : l3afd.Models.BpfProgram). p.name) (written-program s.bpfs r e _ refl) ∙ h;
      others = λ x q. written-program s.bpfs r x _ refl;
    };
  }

  -- A new configuration of the program under the same name.
  pub write-IsAbout :
      (e : Ref) (n : String) (f : Bpf → Bpf)
      → ((b : Bpf) → b.program.name ≡ n → (f b).program.name ≡ n)
      → IsAbout e n (write e f)
  unfolding write
  write-IsAbout e n f k = record {
    at = λ s h. record {
      own = rw (nat_eq_refl e) (k (s.bpfs e) h);
      others = λ x q. ap (λ b. (if b then f (s.bpfs e) else s.bpfs x).program) q;
    };
  }

module _ ⦃os : Os⦄ {A : Type 0} (e : Ref) (n : String) where
  pub Keeps-IsAbout : (m : Kf A) → Keeps m → IsAbout e n m
  Keeps-IsAbout m k = record {
    at = λ s h.
        let same = view-Quiet s (m s).1 (k.at s) in
        record {
          own = ap (λ (v : View). (v.program e).name) same ∙ h;
          others = λ r q. ap (λ (v : View). v.program r) same;
        };
  }

  pub if-IsAbout :
      (b : Bool) (m m' : Kf A) → IsAbout e n m → IsAbout e n m' → IsAbout e n (if b then m else m')
  if-IsAbout true m m' p q = p
  if-IsAbout false m m' p q = q

  pub option-IsAbout :
      {B : Type 0} (o : Option B) (m : Kf A) (k : B → Kf A)
      → IsAbout e n m
      → ((b : B) → IsAbout e n (k b))
      → IsAbout e n (on_option o m k)
  unfolding on_option
  option-IsAbout none m k p q = p
  option-IsAbout (some b) m k p q = q b

  pub wrap-IsAbout : (message : String) (m : Kf A) → IsAbout e n m → IsAbout e n (wrap message m)
  unfolding wrap
  wrap-IsAbout message m p = record { at = λ s h. p.at s h }

  pub try-IsAbout : (m : Kf A) → IsAbout e n m → IsAbout e n (try m)
  unfolding try
  try-IsAbout m p = record { at = λ s h. p.at s h }

  continue-SameOthers :
      {B : Type 0} (v : View) (t : State os) (r : Result B) (f : B → Kf A)
      → SameOthers e n v (view t)
      → ((b : B) → IsAbout e n (f b))
      → SameOthers e n v (view (l3afd.Exec.continue r f t).1)
  continue-SameOthers v t (ok b) f q k =
      let next = (k b).at t q.own in
      record { own = next.own; others = λ r h. next.others r h ∙ q.others r h }
  continue-SameOthers v t (err e) f q k = q
  continue-SameOthers v t panic f q k = q
  continue-SameOthers v t blocked f q k = q

  pub bind-IsAbout :
      {B : Type 0} (m : Kf B) (f : B → Kf A)
      → IsAbout e n m
      → ((b : B) → IsAbout e n (f b))
      → IsAbout e n (m >>= f)
  unfolding ◌>>=◌
  bind-IsAbout m f p k = record {
    at = λ s h. continue-SameOthers (view s) (m s).1 (m s).0 f (p.at s h) k;
  }

-- The statements that write nothing.
module _ ⦃os : Os⦄ {A : Type 0} (e : Ref) (n : String) where
  pub pure-IsAbout : (a : A) → IsAbout e n (pure a)
  pure-IsAbout a = Keeps-IsAbout e n _ (Keeps-pure a)

  pub fail-IsAbout : (message : String) → IsAbout {A = A} e n (fail message)
  fail-IsAbout message = Keeps-IsAbout e n _ (Keeps-fail message)

  pub panics-IsAbout : IsAbout {A = A} e n panics
  panics-IsAbout = Keeps-IsAbout e n _ Keeps-panics

  pub gets-IsAbout : (f : State os → A) → IsAbout e n (gets f)
  gets-IsAbout f = Keeps-IsAbout e n _ (Keeps-gets f)

  pub deref-IsAbout : (o : Option A) → IsAbout e n (deref o)
  deref-IsAbout o = Keeps-IsAbout e n _ (Keeps-deref o)

module _ ⦃os : Os⦄ (e : Ref) (n : String) where
  pub read-IsAbout : (r : Ref) → IsAbout e n (read r)
  read-IsAbout r = Keeps-IsAbout e n _ (Keeps-read r)

pub ruleset about_rules = (
  pure-IsAbout, fail-IsAbout, panics-IsAbout, gets-IsAbout, deref-IsAbout, read-IsAbout,
  set_chain-IsAbout, get_chain-IsAbout, link-IsAbout, if-IsAbout, option-IsAbout, wrap-IsAbout,
  try-IsAbout, bind-IsAbout,
)
