-- ===== src/Kf/View.antt =====
-- What a chain looks like from above: the configuration with its lists, the program of each struct
-- and the map that it is linked behind. Processes, maps and metrics are left out. The statements of
-- kf that change a chain are compared with functions on this view.
use mathlib.Core.Path.{fun_ext}
use l3afd.Prelude.{suc, ◌≡◌, String, Option, none, some, [], ◌∷◌, nat_eq, if◌then◌else◌, ◌≤ℤ◌, ◌<◌}
use l3afd.Models.{BpfProgram}
use l3afd.Os.{Os}
use l3afd.Kf.ElementList.{Ref, Chain}
use l3afd.Kf.ElementList.Split.{Distinct}
use l3afd.Kf.ElementList.Related.{Related}
use l3afd.Kf.State.{Direction, NfConfigs, State}
use l3afd.Kf.Access.{with_chain}
use l3afd.Kf.Quiet.{Quiet}

pub record View : Type 0 where
  pub configs : NfConfigs
  pub next_ref : Ref
  pub program : Ref → BpfProgram
  pub prev_map_name : Ref → String

abbrev pub view : {os : Os} → State os → View
view s = record {
  configs = s.configs;
  next_ref = s.next_ref;
  program = λ r. (s.bpfs r).program;
  prev_map_name = λ r. (s.bpfs r).prev_map_name;
}

-- The order and the links of neighbours.
abbrev pub InOrder : View → Ref → Ref → Type 0
InOrder v a b = (v.program a).seq_id ≤ℤ (v.program b).seq_id

abbrev pub Linked : View → Ref → Ref → Type 0
Linked v a b = v.prev_map_name b ≡ (v.program a).map_name

abbrev pub AllBelow : Ref → Chain → Type 0
AllBelow n [] = Unit
AllBelow n (x ∷ xs) = (x < n) × AllBelow n xs

-- A chain is in the order of its sequence IDs, every program is linked behind the map of the one
-- before it, and the structs are distinct and allocated.
pub record IsWellFormed (v : View) (l : Chain) : Type 0 where
  pub sorted : Related (InOrder v) none l
  pub linked : Related (Linked v) none l
  pub distinct : Distinct l
  pub allocated : AllBelow v.next_ref l

-- The program `right` is linked behind `left`.
abbrev pub link_view : View → Ref → Ref → View
link_view v left right = record v {
  prev_map_name = λ r. if nat_eq right r then (v.program left).map_name else v.prev_map_name r;
}

-- The same, where there may be no neighbour.
abbrev pub link_behind : View → Option Ref → Ref → View
link_behind v none e = v
link_behind v (some p) e = link_view v p e

abbrev pub link_before : View → Ref → Option Ref → View
link_before v e none = v
link_before v e (some n) = link_view v e n

abbrev pub put_chain : View → Direction → String → Option Chain → View
put_chain v d iface l = record v { configs = with_chain v.configs d iface l }

-- A new struct for a program.
abbrev pub alloc_view : View → BpfProgram → View
alloc_view v p = record v {
  next_ref = suc v.next_ref;
  program = λ r. if nat_eq v.next_ref r then p else v.program r;
  prev_map_name = λ r. if nat_eq v.next_ref r then "" else v.prev_map_name r;
}

module _ ⦃os : Os⦄ where
  pub view-Quiet : (s t : State os) → Quiet s t → view t ≡ view s
  view-Quiet s t q = λ i. record {
    configs = q.configs i;
    next_ref = q.next_ref i;
    program = fun_ext (λ r. (q.bpfs r).program) i;
    prev_map_name = fun_ext (λ r. (q.bpfs r).prev_map_name) i;
  }
