-- ===== src/Kf/Equality/Sound.antt =====
-- What reflect.DeepEqual promises for the maps and the programs.
use l3afd.Prelude.{
  ◌≡◌, refl, ap, ◌∙◌, Bool, true, false, ◌&&◌, ◌||◌, not, String, Option, none, some, List, [], ◌∷◌,
  Map, lookup, length, nat_eq, eq_ℤ, eq_ℤ_iff, nat_eq_iff, ◌==◌, eq_iff, if◌then◌else◌, arith,
  Bool-cases, inl, inr, ℤ, ℕ,
}
use mathlib.Core.Bool.{xor}
use l3afd.Models.{Value, str, other, Args, MetricsMap, BpfProgram}
use l3afd.Kf.Equality.{
  value_eq, has_value, entries_in, args_eq, metrics_maps_eq, monitor_maps_eq, bool_eq, program_eq,
}

-- The keys of a map are distinct.
abbrev pub HasNoKey : String → Map Value → Type 0
HasNoKey k [] = Unit
HasNoKey k ((j, v) ∷ m) = ((j == k) ≡ false) × HasNoKey k m

abbrev pub IsMap : Map Value → Type 0
IsMap [] = Unit
IsMap ((k, v) ∷ m) = HasNoKey k m × IsMap m

abbrev pub IsArgs : Args → Type 0
IsArgs none = Unit
IsArgs (some m) = IsMap m

pub record HasMaps (p : BpfProgram) : Type 0 where
  pub start_args : IsArgs p.start_args
  pub stop_args : IsArgs p.stop_args
  pub status_args : IsArgs p.status_args
  pub map_args : IsArgs p.map_args
  pub config_args : IsArgs p.config_args

value_eq_sound : (v w : Value) → value_eq v w ≡ true → v ≡ w
value_eq_sound (str a) (str b) p = ap str ((eq_iff a b).0 p)
value_eq_sound (other a) (other b) p = ap other ((eq_iff a b).0 p)
value_eq_sound (str a) (other b) p = absurd (ground arith)
value_eq_sound (other a) (str b) p = absurd (ground arith)

has_value_sound : (v : Value) (o : Option Value) → has_value v o ≡ true → o ≡ some v
has_value_sound v none p = absurd (ground arith)
has_value_sound v (some w) p = ap some (l3afd.Prelude.sym (value_eq_sound v w p))

entries_in_sound :
    (m n : Map Value) (k : String) (v : Value)
    → entries_in m n ≡ true
    → lookup k m ≡ some v
    → lookup k n ≡ some v
unfolding entries_in lookup
entries_in_sound [] n k v p q = absurd (ground arith)
entries_in_sound ((j, w) ∷ m) n k v p q = elim (Bool-cases (j == k)) [
  | inl here ↦ ground (arith, eq_iff j k, has_value_sound w (lookup j n))
  | inr differs ↦ entries_in_sound m n k v (ground arith) (ground arith)
]

-- Equal arguments have the same sizes, and a key of the first has the same value in the second.
pub args_eq_sound :
    (m n : Map Value) (k : String) (v : Value)
    → args_eq (some m) (some n) ≡ true
    → lookup k m ≡ some v
    → (length m ≡ length n) × (lookup k n ≡ some v)
unfolding args_eq
args_eq_sound m n k v p q =
    (ground (arith, nat_eq_iff (length m) (length n)), entries_in_sound m n k v (ground arith) q)

value_eq_refl : (v : Value) → value_eq v v ≡ true
value_eq_refl (str a) = (eq_iff a a).1 refl
value_eq_refl (other a) = (eq_iff a a).1 refl

-- Every entry of `m` is found in `n`.
abbrev Found : Map Value → Map Value → Type 0
Found [] n = Unit
Found ((k, v) ∷ m) n = (lookup k n ≡ some v) × Found m n

Found-skip :
    (m n : Map Value) (k : String) (v : Value) → HasNoKey k m → Found m n → Found m ((k, v) ∷ n)
unfolding lookup
Found-skip [] n k v h f = tt
Found-skip ((j, w) ∷ m) n k v h f =
    (ground (arith, eq_iff j k, eq_iff k j, f.0), Found-skip m n k v h.1 f.1)

Found-self : (m : Map Value) → IsMap m → Found m m
unfolding lookup
Found-self [] h = tt
Found-self ((k, v) ∷ m) h = (rw ((eq_iff k k).1 refl), Found-skip m m k v h.0 (Found-self m h.1))

entries_in-Found : (m n : Map Value) → Found m n → entries_in m n ≡ true
unfolding entries_in
entries_in-Found [] n f = refl
entries_in-Found ((k, v) ∷ m) n f = rw (f.0, value_eq_refl v, entries_in-Found m n f.1)

args_eq_refl : (a : Args) → IsArgs a → args_eq a a ≡ true
unfolding args_eq
args_eq_refl none h = refl
args_eq_refl (some m) h =
    rw ((nat_eq_iff (length m) (length m)).1 refl, entries_in-Found m m (Found-self m h))

eq_ℤ_refl : (a : ℤ) → eq_ℤ a a ≡ true
eq_ℤ_refl a = (eq_ℤ_iff a a).1 refl

text_refl : (a : String) → (a == a) ≡ true
text_refl a = (eq_iff a a).1 refl

bool_eq_refl : (a : Bool) → bool_eq a a ≡ true
unfolding xor
bool_eq_refl true = refl
bool_eq_refl false = refl

metrics_maps_eq_refl : (a : List MetricsMap) → metrics_maps_eq a a ≡ true
unfolding metrics_maps_eq
metrics_maps_eq_refl [] = refl
metrics_maps_eq_refl (a ∷ as') =
    rw (text_refl a.name, eq_ℤ_refl a.key, text_refl a.aggregator, metrics_maps_eq_refl as')

monitor_maps_eq_refl : (a : Option (List MetricsMap)) → monitor_maps_eq a a ≡ true
unfolding monitor_maps_eq
monitor_maps_eq_refl none = refl
monitor_maps_eq_refl (some a) = metrics_maps_eq_refl a

-- A program is deeply equal to itself, if the keys of its arguments are distinct.
pub program_eq_refl : (p : BpfProgram) → HasMaps p → program_eq p p ≡ true
unfolding program_eq
program_eq_refl p h = rw (
  eq_ℤ_refl p.id,
  eq_ℤ_refl p.seq_id,
  eq_ℤ_refl p.cpu,
  eq_ℤ_refl p.memory,
  eq_ℤ_refl p.cfg_version,
  text_refl p.name,
  text_refl p.artifact,
  text_refl p.map_name,
  text_refl p.cmd_start,
  text_refl p.cmd_stop,
  text_refl p.cmd_status,
  text_refl p.cmd_config,
  text_refl p.version,
  text_refl p.admin_status,
  text_refl p.prog_type,
  text_refl p.rules_file,
  text_refl p.rules,
  text_refl p.config_file_path,
  bool_eq_refl p.user_program_daemon,
  bool_eq_refl p.is_plugin,
  args_eq_refl p.start_args h.start_args,
  args_eq_refl p.stop_args h.stop_args,
  args_eq_refl p.status_args h.status_args,
  args_eq_refl p.map_args h.map_args,
  args_eq_refl p.config_args h.config_args,
  monitor_maps_eq_refl p.monitor_maps,
)
