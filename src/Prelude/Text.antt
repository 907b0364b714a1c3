-- ===== src/Prelude/Text.antt =====
-- What the daemon uses of Go's strings, strconv and path/filepath.
use Prim.Native.Nat.{ℕ, ◌+◌, ◌*◌, ◌-◌, ◌^◌, min}
use Prim.Native.Char.{Char, code}
use Prim.Native.String.{String, [], ◌∷◌, ◌++◌}
use mathlib.Core.Bool.{Bool, true, false, ◌&&◌, ◌||◌}
use mathlib.Core.List.{List}
use mathlib.Core.Option.{Option, none, some}
use text.Mathlib.Text.{starts_with}
use l3afd.Prelude.Tests.{◌==◌, leb, nat_eq, if◌then◌else◌}
use l3afd.Prelude.Int.{ℤ, pos, negsuc}

-- strings.Contains
unfoldable pub contains : String → String → Bool
contains [] sub = sub == ""
contains (c ∷ s) sub = starts_with (c ∷ s) sub || contains s sub

-- strings.HasSuffix
unfoldable pub has_suffix : String → String → Bool
has_suffix [] suffix = suffix == ""
has_suffix (c ∷ s) suffix = (c ∷ s) == suffix || has_suffix s suffix

abbrev pub push_first : Char → List String → List String
push_first c List.[] = List.◌∷◌ (c ∷ []) List.[]
push_first c (List.◌∷◌ w ws) = List.◌∷◌ (c ∷ w) ws

-- strings.Split, for a separator of one character
unfoldable pub split : ℕ → String → List String
split sep [] = List.◌∷◌ "" List.[]
split sep (c ∷ s) =
    let rest = split sep s in if nat_eq (code c) sep then List.◌∷◌ "" rest else push_first c rest

abbrev pub head_or : List String → String
head_or List.[] = ""
head_or (List.◌∷◌ w ws) = w

-- strings.Split(s, ".")[0]
unfoldable pub before_dot : String → String
unfolding split
before_dot s = head_or (split b'.' s)

unfoldable pub digits : ℕ → String → Option ℕ
digits n [] = some n
digits n (c ∷ s) =
    if leb b'0' (code c) && leb (code c) b'9' then digits (n * 10 + (code c - b'0')) s else none

-- strconv.Atoi on a text without a sign
unfoldable pub parse_nat : String → Option ℕ
unfolding digits
parse_nat [] = none
parse_nat (c ∷ s) = digits 0 (c ∷ s)

-- filepath.Clean keeps a stack of the components, the last one on top.
abbrev pub push_component : Bool → String → List String → List String
push_component rooted w stack =
    if w == "" || w == "."
    then stack
    else if w == ".."
    then pop_component stack
    else List.◌∷◌ w stack
  where
    pop_component : List String → List String
    pop_component List.[] = if rooted then List.[] else List.◌∷◌ ".." List.[]
    pop_component (List.◌∷◌ t ts) = if t == ".." then List.◌∷◌ ".." (List.◌∷◌ t ts) else ts

unfoldable pub components : Bool → List String → List String → List String
components rooted stack List.[] = stack
components rooted stack (List.◌∷◌ w ws) = components rooted (push_component rooted w stack) ws

unfoldable pub join_reversed : List String → String → String
join_reversed List.[] acc = acc
join_reversed (List.◌∷◌ w ws) acc = join_reversed ws (if acc == "" then w else w ++ "/" ++ acc)

unfoldable pub clean : String → String
unfolding split components join_reversed
clean s =
    let rooted = starts_with s "/" in
    let path = join_reversed (components rooted List.[] (split b'/' s)) "" in
    if rooted then "/" ++ path else if path == "" then "." else path

unfoldable pub join_nonempty : List String → String
join_nonempty List.[] = ""
join_nonempty (List.◌∷◌ w ws) =
    let rest = join_nonempty ws in
    if w == "" then rest else if rest == "" then w else w ++ "/" ++ rest

-- filepath.Join
unfoldable pub join : List String → String
unfolding join_nonempty clean
join ws = let path = join_nonempty ws in if path == "" then "" else clean path

drop_first : String → String
drop_first [] = []
drop_first (c ∷ s) = s

signed : Bool → ℕ → ℤ
signed negative n =
    if negative
    then (if nat_eq n 0 then pos 0 else negsuc (min n (2 ^ 63) - 1))
    else pos (min n (2 ^ 63 - 1))

-- strconv.ParseInt(s, 10, 64) with its error dropped: 0 for what is no number, the nearest bound for
-- what does not fit into 64 bits
unfoldable pub parse_int_or_zero : String → ℤ
unfolding parse_nat signed drop_first
parse_int_or_zero s =
    let negative = starts_with s "-" in
    let body = if negative || starts_with s "+" then drop_first s else s in
    elim (parse_nat body) [ none ↦ pos 0 | some n ↦ signed negative n ]

abbrev upper : ℕ → ℕ
upper c = if leb b'a' c && leb c b'z' then c - 32 else c

-- strings.EqualFold, for ASCII
unfoldable pub equal_fold : String → String → Bool
equal_fold [] [] = true
equal_fold (c ∷ s) (d ∷ t) = nat_eq (upper (code c)) (upper (code d)) && equal_fold s t
equal_fold _ _ = false

abbrev pub is_space : ℕ → Bool
is_space c = nat_eq c 32 || leb 9 c && leb c 13

drop_spaces : String → String
drop_spaces [] = []
drop_spaces (c ∷ s) = if is_space (code c) then drop_spaces s else c ∷ s

drop_last_spaces : String → String
drop_last_spaces [] = []
drop_last_spaces (c ∷ s) =
    let rest = drop_last_spaces s in if rest == "" && is_space (code c) then "" else c ∷ rest

-- strings.TrimSpace, for ASCII
unfoldable pub trim_space : String → String
unfolding drop_spaces drop_last_spaces
trim_space s = drop_last_spaces (drop_spaces s)
