-- ===== src/Kf/ElementList.antt =====
-- container/list as kf uses it. An element holds one `*BPF`, which stands in no other element, so the
-- pointer serves as the element too: a list is the sequence of the pointers. An element that is not
-- in the list has no neighbours, as `Remove` clears its links.
pub mod Split
pub mod Related
pub mod Alone
use l3afd.Prelude.{
  ℕ, Bool, false, ◌||◌, Option, none, some, List, [], ◌∷◌, ◌++◌, nat_eq, if◌then◌else◌,
}

abbrev pub Ref : Type 0
Ref = ℕ

abbrev pub Chain : Type 0
Chain = List Ref

abbrev pub front : Chain → Option Ref
front [] = none
front (x ∷ xs) = some x

unfoldable pub mem : Ref → Chain → Bool
mem e [] = false
mem e (x ∷ xs) = nat_eq x e || mem e xs

unfoldable pub next : Chain → Ref → Option Ref
next [] e = none
next (x ∷ xs) e = if nat_eq x e then front xs else next xs e

unfoldable pub prev_from : Option Ref → Chain → Ref → Option Ref
prev_from before [] e = none
prev_from before (x ∷ xs) e = if nat_eq x e then before else prev_from (some x) xs e

unfoldable pub prev : Chain → Ref → Option Ref
unfolding prev_from
prev l e = prev_from none l e

unfoldable pub remove : Chain → Ref → Chain
remove [] e = []
remove (x ∷ xs) e = if nat_eq x e then xs else x ∷ remove xs e

unfoldable pub insert_before : Chain → Ref → Ref → Chain
insert_before [] e mark = []
insert_before (x ∷ xs) e mark = if nat_eq x mark then e ∷ x ∷ xs else x ∷ insert_before xs e mark

unfoldable pub push_back : Chain → Ref → Chain
push_back l e = l ++ e ∷ []

unfoldable pub push_front : Chain → Ref → Chain
push_front l e = e ∷ l

unfoldable pub move_before : Chain → Ref → Ref → Chain
unfolding insert_before remove mem
move_before l e mark =
    if nat_eq e mark then l else if mem e l then insert_before (remove l e) e mark else l

unfoldable pub move_to_back : Chain → Ref → Chain
unfolding push_back remove mem
move_to_back l e = if mem e l then push_back (remove l e) e else l
