-- ===== src/Kf/Quiet.antt =====
-- Statements that leave the chains alone, the programs of all structs, the maps they link to and the
-- counts of their restarts.
use l3afd.Prelude.{
  ◌≡◌, refl, Bool, true, false, String, Option, none, some, ◌∙◌, arith, nat_eq, nat_eq_iff,
  Bool-cases, inl, inr, if◌then◌else◌, List, [], ◌∷◌, ℕ, zero, suc,
}
use l3afd.Os.{Os}
use l3afd.Stats.{Stats}
use l3afd.Exec.{
  on_option, Result, ok, err, panic, blocked, Exec, pure, fail, panics, blocks, gets, deref,
  some_or, check, wrap, try, attempt, ◌>>=◌,
}
use l3afd.Kf.ElementList.{Ref}
use l3afd.Kf.State.{Bpf, State, Kf}
use l3afd.Kf.Access.{call, sleep, read, write, publish}

pub record SameBpf (b c : Bpf) : Type 0 where
  pub program : c.program ≡ b.program
  pub prev_map_name : c.prev_map_name ≡ b.prev_map_name
  pub restart_count : c.restart_count ≡ b.restart_count

module _ ⦃os : Os⦄ where
  pub record Quiet (s t : State os) : Type 0 where
    pub configs : t.configs ≡ s.configs
    pub next_ref : t.next_ref ≡ s.next_ref
    pub bpfs : (r : Ref) → SameBpf (s.bpfs r) (t.bpfs r)

  pub record Keeps {A : Type 0} (m : Kf A) : Type 0 where
    pub at : (s : State os) → Quiet s (m s).1

  pub Quiet-refl : (s : State os) → Quiet s s
  Quiet-refl s = record {
    configs = refl;
    next_ref = refl;
    bpfs = λ r. record { program = refl; prev_map_name = refl; restart_count = refl };
  }

  pub Quiet-trans : (s t u : State os) → Quiet s t → Quiet t u → Quiet s u
  Quiet-trans s t u p q = record {
    configs = q.configs ∙ p.configs;
    next_ref = q.next_ref ∙ p.next_ref;
    bpfs = λ r. record {
      program = (q.bpfs r).program ∙ (p.bpfs r).program;
      prev_map_name = (q.bpfs r).prev_map_name ∙ (p.bpfs r).prev_map_name;
      restart_count = (q.bpfs r).restart_count ∙ (p.bpfs r).restart_count;
    };
  }

module _ ⦃os : Os⦄ {A : Type 0} where
  pub Keeps-pure : (a : A) → Keeps (pure a)
  unfolding pure
  Keeps-pure a = record { at = λ s. Quiet-refl s }

  pub Keeps-fail : (e : String) → Keeps {A = A} (fail e)
  unfolding fail
  Keeps-fail e = record { at = λ s. Quiet-refl s }

  pub Keeps-panics : Keeps {A = A} panics
  unfolding panics
  Keeps-panics = record { at = λ s. Quiet-refl s }

  pub Keeps-blocks : Keeps {A = A} blocks
  unfolding blocks
  Keeps-blocks = record { at = λ s. Quiet-refl s }

  pub Keeps-gets : (f : State os → A) → Keeps (gets f)
  unfolding gets
  Keeps-gets f = record { at = λ s. Quiet-refl s }

  pub Keeps-call : (f : os.World → A × os.World) → Keeps (call f)
  unfolding call
  Keeps-call f = record {
    at = λ s. record {
      configs = refl;
      next_ref = refl;
      bpfs = λ r. record { program = refl; prev_map_name = refl; restart_count = refl };
    };
  }

  pub Keeps-deref : (o : Option A) → Keeps (deref o)
  Keeps-deref none = Keeps-panics
  Keeps-deref (some a) = Keeps-pure a

  pub Keeps-some_or : (o : Option A) (e : String) → Keeps (some_or o e)
  Keeps-some_or none e = Keeps-fail e
  Keeps-some_or (some a) e = Keeps-pure a

  pub Keeps-if : (b : Bool) (m n : Kf A) → Keeps m → Keeps n → Keeps (if b then m else n)
  Keeps-if true m n p q = p
  Keeps-if false m n p q = q

  pub Keeps-option :
      {B : Type 0} (o : Option B) (m : Kf A) (k : B → Kf A)
      → Keeps m
      → ((b : B) → Keeps (k b))
      → Keeps (on_option o m k)
  unfolding on_option
  Keeps-option none m k p q = p
  Keeps-option (some b) m k p q = q b

  pub Keeps-wrap : (e : String) (m : Kf A) → Keeps m → Keeps (wrap e m)
  unfolding wrap
  Keeps-wrap e m p = record { at = λ s. p.at s }

  pub Keeps-try : (m : Kf A) → Keeps m → Keeps (try m)
  unfolding try
  Keeps-try m p = record { at = λ s. p.at s }

  pub Keeps-attempt : (m : Kf A) → Keeps m → Keeps (attempt m)
  unfolding attempt
  Keeps-attempt m p = record { at = λ s. p.at s }

  Quiet-continue :
      {B : Type 0} (s t : State os) (r : Result B) (f : B → Kf A)
      → Quiet s t
      → ((b : B) → Keeps (f b))
      → Quiet s (l3afd.Exec.continue r f t).1
  Quiet-continue s t (ok b) f q k = Quiet-trans s t (f b t).1 q ((k b).at t)
  Quiet-continue s t (err e) f q k = q
  Quiet-continue s t panic f q k = q
  Quiet-continue s t blocked f q k = q

  pub Keeps-bind :
      {B : Type 0} (m : Kf B) (f : B → Kf A) → Keeps m → ((b : B) → Keeps (f b)) → Keeps (m >>= f)
  unfolding ◌>>=◌
  Keeps-bind m f p k = record { at = λ s. Quiet-continue s (m s).1 (m s).0 f (p.at s) k }

module _ ⦃os : Os⦄ where
  pub Keeps-sleep : Keeps sleep
  unfolding sleep
  Keeps-sleep = record {
    at = λ s. record {
      configs = refl;
      next_ref = refl;
      bpfs = λ r. record { program = refl; prev_map_name = refl; restart_count = refl };
    };
  }

  pub Keeps-read : (r : Ref) → Keeps (read r)
  unfolding read
  Keeps-read r = record { at = λ s. Quiet-refl s }

  pub Keeps-publish : (f : Stats → Stats) → Keeps (publish f)
  unfolding publish
  Keeps-publish f = record {
    at = λ s. record {
      configs = refl;
      next_ref = refl;
      bpfs = λ r. record { program = refl; prev_map_name = refl; restart_count = refl };
    };
  }

  SameBpf-write :
      (s : State os) (r q : Ref) (f : Bpf → Bpf)
      → ((b : Bpf) → SameBpf b (f b))
      → SameBpf (s.bpfs q) (if nat_eq r q then f (s.bpfs r) else s.bpfs q)
  SameBpf-write s r q f p = elim (Bool-cases (nat_eq r q)) [
    | inl same ↦ rw (same, (nat_eq_iff r q).0 same) (p (s.bpfs q))
    | inr other ↦ rw other (record { program = refl; prev_map_name = refl; restart_count = refl })
  ]

  pub Keeps-write : (r : Ref) (f : Bpf → Bpf) → ((b : Bpf) → SameBpf b (f b)) → Keeps (write r f)
  unfolding write
  Keeps-write r f p = record {
    at = λ s. record { configs = refl; next_ref = refl; bpfs = λ q. SameBpf-write s r q f p };
  }

pub SameBpf-mk :
    {b c : Bpf}
    → c.program ≡ b.program
    → c.prev_map_name ≡ b.prev_map_name
    → c.restart_count ≡ b.restart_count
    → SameBpf b c
SameBpf-mk p q r = record { program = p; prev_map_name = q; restart_count = r }

pub ruleset quiet_rules = (
  Keeps-pure, Keeps-fail, Keeps-panics, Keeps-blocks, Keeps-gets, Keeps-call, Keeps-deref,
  Keeps-some_or, Keeps-if, Keeps-option, Keeps-wrap, Keeps-try, Keeps-attempt, Keeps-bind,
  Keeps-sleep, Keeps-read, Keeps-publish, Keeps-write, SameBpf-mk, refl,
)
