-- ===== src/Kf/Local.antt =====
-- Statements that work on one interface: the lists of all other interfaces stay as they are, and so
-- does what NFConfigs knows of the host.
pub mod Chains
pub mod Removing
pub mod Updating
pub mod Deploying
use l3afd.Prelude.{
  ◌≡◌, refl, ◌∙◌, ap, sym, Bool, true, false, String, Option, none, some, Map, insert, ◌==◌,
  if◌then◌else◌, lookup-insert, lookup,
}
use l3afd.Config.{Config}
use l3afd.Os.{Os}
use l3afd.Exec.{
  on_option, Result, ok, err, panic, blocked, pure, fail, panics, gets, deref, some_or, wrap, try,
  attempt, ◌>>=◌,
}
use l3afd.Kf.ElementList.{Chain}
use l3afd.Kf.State.{Bpf, Direction, NfConfigs, State, Kf}
use l3afd.Kf.Access.{
  call, read, alloc, set_chain, get_chain, write, chain_in, chain_at, same_direction, with_chain,
}
use l3afd.Kf.ElementList.{Ref}
use l3afd.Kf.Quiet.{
  Keeps, Keeps-pure, Keeps-fail, Keeps-panics, Keeps-gets, Keeps-call, Keeps-deref, Keeps-some_or,
  Keeps-read,
}

-- `c'` differs from `c` in the lists of `iface` only.
pub record SameBut (iface : String) (c c' : NfConfigs) : Type 0 where
  pub host_name : c'.host_name ≡ c.host_name
  pub host_interfaces : c'.host_interfaces ≡ c.host_interfaces
  pub host_config : c'.host_config ≡ c.host_config
  pub ifaces : c'.ifaces ≡ c.ifaces
  pub others :
      (d : Direction) (other : String)
      → (iface == other) ≡ false
      → chain_at c' d other ≡ chain_at c d other

pub SameBut-refl : (iface : String) (c : NfConfigs) → SameBut iface c c
SameBut-refl iface c = record {
  host_name = refl;
  host_interfaces = refl;
  host_config = refl;
  ifaces = refl;
  others = λ d other h. refl;
}

pub SameBut-trans :
    (iface : String) (a b c : NfConfigs) → SameBut iface a b → SameBut iface b c → SameBut iface a c
SameBut-trans iface a b c p q = record {
  host_name = q.host_name ∙ p.host_name;
  host_interfaces = q.host_interfaces ∙ p.host_interfaces;
  host_config = q.host_config ∙ p.host_config;
  ifaces = q.ifaces ∙ p.ifaces;
  others = λ d other h. q.others d other h ∙ p.others d other h;
}

SameBut-eq : (iface : String) (a b : NfConfigs) → b ≡ a → SameBut iface a b
SameBut-eq iface a b e = record {
  host_name = ap (λ (c : NfConfigs). c.host_name) e;
  host_interfaces = ap (λ (c : NfConfigs). c.host_interfaces) e;
  host_config = ap (λ (c : NfConfigs). c.host_config) e;
  ifaces = ap (λ (c : NfConfigs). c.ifaces) e;
  others = λ d other h. ap (λ (c : NfConfigs). chain_at c d other) e;
}

chain_in-insert :
    (iface other : String) (l : Option Chain) (m : Map (Option Chain))
    → (iface == other) ≡ false
    → chain_in (insert iface l m) other ≡ chain_in m other
chain_in-insert iface other l m h =
    ap (λ (o : Option (Option Chain)). elim o [ none ↦ none | some c ↦ c ])
      (lookup-insert iface other l m ∙ ap (λ b. if b then some l else lookup other m) h)

chains-others :
    (b : Bool) (iface other : String) (l : Option Chain) (m : Map (Option Chain))
    → (iface == other) ≡ false
    → chain_in (if b then insert iface l m else m) other ≡ chain_in m other
chains-others true iface other l m h = chain_in-insert iface other l m h
chains-others false iface other l m h = refl

with_chain-SameBut :
    (c : NfConfigs) (d : Direction) (iface : String) (l : Option Chain)
    → SameBut iface c (with_chain c d iface l)
with_chain-SameBut c d iface l = record {
  host_name = refl;
  host_interfaces = refl;
  host_config = refl;
  ifaces = refl;
  others = λ d' other h. chains-others (same_direction d d') iface other l (c.chains d') h;
}

module _ ⦃os : Os⦄ where
  pub record IsLocal {A : Type 0} (iface : String) (m : Kf A) : Type 0 where
    pub at : (s : State os) → SameBut iface s.configs (m s).1.configs

  pub set_chain-IsLocal :
      (d : Direction) (iface : String) (l : Option Chain) → IsLocal iface (set_chain d iface l)
  unfolding set_chain
  set_chain-IsLocal d iface l = record { at = λ s. with_chain-SameBut s.configs d iface l }

  pub get_chain-IsLocal : (d : Direction) (iface : String) → IsLocal iface (get_chain d iface)
  unfolding get_chain
  get_chain-IsLocal d iface = record { at = λ s. SameBut-refl iface s.configs }

  pub alloc-IsLocal : (iface : String) (b : Bpf) → IsLocal iface (alloc b)
  unfolding alloc
  alloc-IsLocal iface b = record { at = λ s. SameBut-refl iface s.configs }

  pub write-IsLocal : (iface : String) (r : Ref) (f : Bpf → Bpf) → IsLocal iface (write r f)
  unfolding write
  write-IsLocal iface r f = record { at = λ s. SameBut-refl iface s.configs }

module _ ⦃os : Os⦄ {A : Type 0} (iface : String) where
  pub Keeps-IsLocal : (m : Kf A) → Keeps m → IsLocal iface m
  Keeps-IsLocal m k = record {
    at = λ s. SameBut-eq iface s.configs (m s).1.configs (k.at s).configs;
  }

  pub if-IsLocal :
      (b : Bool) (m n : Kf A)
      → IsLocal iface m
      → IsLocal iface n
      → IsLocal iface (if b then m else n)
  if-IsLocal true m n p q = p
  if-IsLocal false m n p q = q

  pub option-IsLocal :
      {B : Type 0} (o : Option B) (m : Kf A) (k : B → Kf A)
      → IsLocal iface m
      → ((b : B) → IsLocal iface (k b))
      → IsLocal iface (on_option o m k)
  unfolding on_option
  option-IsLocal none m k p q = p
  option-IsLocal (some b) m k p q = q b

  pub wrap-IsLocal : (e : String) (m : Kf A) → IsLocal iface m → IsLocal iface (wrap e m)
  unfolding wrap
  wrap-IsLocal e m p = record { at = λ s. p.at s }

  pub try-IsLocal : (m : Kf A) → IsLocal iface m → IsLocal iface (try m)
  unfolding try
  try-IsLocal m p = record { at = λ s. p.at s }

  pub attempt-IsLocal : (m : Kf A) → IsLocal iface m → IsLocal iface (attempt m)
  unfolding attempt
  attempt-IsLocal m p = record { at = λ s. p.at s }

  continue-SameBut :
      {B : Type 0} (c : NfConfigs) (t : State os) (r : Result B) (f : B → Kf A)
      → SameBut iface c t.configs
      → ((b : B) → IsLocal iface (f b))
      → SameBut iface c (l3afd.Exec.continue r f t).1.configs
  continue-SameBut c t (ok b) f q k =
      SameBut-trans iface c t.configs (f b t).1.configs q ((k b).at t)
  continue-SameBut c t (err e) f q k = q
  continue-SameBut c t panic f q k = q
  continue-SameBut c t blocked f q k = q

  pub bind-IsLocal :
      {B : Type 0} (m : Kf B) (f : B → Kf A)
      → IsLocal iface m
      → ((b : B) → IsLocal iface (f b))
      → IsLocal iface (m >>= f)
  unfolding ◌>>=◌
  bind-IsLocal m f p k = record {
    at = λ s. continue-SameBut s.configs (m s).1 (m s).0 f (p.at s) k;
  }

-- The statements that touch no list.
module _ ⦃os : Os⦄ {A : Type 0} (iface : String) where
  pub pure-IsLocal : (a : A) → IsLocal iface (pure a)
  pure-IsLocal a = Keeps-IsLocal iface _ (Keeps-pure a)

  pub fail-IsLocal : (e : String) → IsLocal {A = A} iface (fail e)
  fail-IsLocal e = Keeps-IsLocal iface _ (Keeps-fail e)

  pub panics-IsLocal : IsLocal {A = A} iface panics
  panics-IsLocal = Keeps-IsLocal iface _ Keeps-panics

  pub gets-IsLocal : (f : State os → A) → IsLocal iface (gets f)
  gets-IsLocal f = Keeps-IsLocal iface _ (Keeps-gets f)

  pub call-IsLocal : (f : os.World → A × os.World) → IsLocal iface (call f)
  call-IsLocal f = Keeps-IsLocal iface _ (Keeps-call f)

  pub deref-IsLocal : (o : Option A) → IsLocal iface (deref o)
  deref-IsLocal o = Keeps-IsLocal iface _ (Keeps-deref o)

  pub some_or-IsLocal : (o : Option A) (e : String) → IsLocal iface (some_or o e)
  some_or-IsLocal o e = Keeps-IsLocal iface _ (Keeps-some_or o e)

module _ ⦃os : Os⦄ (iface : String) where
  pub read-IsLocal : (r : Ref) → IsLocal iface (read r)
  read-IsLocal r = Keeps-IsLocal iface _ (Keeps-read r)

pub ruleset local_rules = (
  pure-IsLocal, fail-IsLocal, panics-IsLocal, gets-IsLocal, call-IsLocal, deref-IsLocal,
  some_or-IsLocal, read-IsLocal, set_chain-IsLocal, get_chain-IsLocal, alloc-IsLocal, write-IsLocal,
  if-IsLocal, option-IsLocal, wrap-IsLocal, try-IsLocal, attempt-IsLocal, bind-IsLocal,
)
