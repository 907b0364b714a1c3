-- ===== src/Kf/Lifecycle/Commands.antt =====
-- The statements of Start that leave the command of a struct.
use l3afd.Prelude.{
  ◌≡◌, refl, sym, subst, ◌∙◌, ◌^◌, Bool, true, false, not, String, ℤ, ℕ, zero, suc, Option, none,
  some, List, [], ◌∷◌, Map, nat_eq, nat_eq_iff, Bool-cases, inl, inr,
}
use l3afd.Models.{Value, str, other}
use l3afd.Os.{Os, MapType, hash, array, other_type}
use l3afd.Exec.{on_option, attempt}
use l3afd.Kf.ElementList.{Ref}
use l3afd.Kf.State.{Bpf, BpfMap, Cmd, State, Kf}
use l3afd.Kf.Access.{write}
use l3afd.Kf.Leaves.{
  Leaves, Leaves-pure, Leaves-fail, Leaves-panics, Leaves-call, Leaves-deref, Leaves-some_or,
  Leaves-if, Leaves-wrap, Leaves-try, Leaves-blocks, Leaves-bind, Leaves-sleep, Leaves-read,
  Leaves-publish,
}
use l3afd.Kf.Processes.{
  assert_executable, flags, is_process_running, await_process, verify_process_object, is_running,
  set_limit, set_pr_limits,
}
use l3afd.Kf.ConfigMaps.{
  search_map, search_maps, get_bpf_map, assert_maps, add_bpf_map, delete_keys, put_keys, put_values,
  update_by_type, update_map, update_arg, update_args, update,
}
use l3afd.Kf.PinnedMaps.{get_prog_id, await_pinned_map, verify_pinned_map_exists}

-- The command of the struct.
abbrev pub HasCommand : Option Cmd → Bpf → Type 0
HasCommand c x = x.cmd ≡ c

module _ ⦃os : Os⦄ {q : Ref} {c : Option Cmd} where
  pub Leaves-option :
      {A B : Type 0} (o : Option B) (m : Kf A) (k : B → Kf A)
      → Leaves q (HasCommand c) m
      → ((x : B) → Leaves q (HasCommand c) (k x))
      → Leaves q (HasCommand c) (on_option o m k)
  unfolding on_option
  Leaves-option none m k p r = p
  Leaves-option (some x) m k p r = r x

  pub Leaves-attempt :
      {A : Type 0} (m : Kf A) → Leaves q (HasCommand c) m → Leaves q (HasCommand c) (attempt m)
  unfolding attempt
  Leaves-attempt m p = record { at = λ s h. p.at s h }

  written-command :
      (s : State os) (r : Ref) (f : Bpf → Bpf)
      → ((x : Bpf) → (f x).cmd ≡ x.cmd)
      → HasCommand c (s.bpfs q)
      → HasCommand c (l3afd.Kf.Access.write_bpf s.bpfs r (f (s.bpfs r)) q)
  written-command s r f p h = elim (Bool-cases (nat_eq r q)) [
    | inl same ↦ rw (same, (nat_eq_iff r q).0 same) (p (s.bpfs q) ∙ h)
    | inr differs ↦ rw differs h
  ]

  pub Leaves-write :
      (r : Ref) (f : Bpf → Bpf)
      → ((x : Bpf) → (f x).cmd ≡ x.cmd)
      → Leaves q (HasCommand c) (write r f)
  unfolding write
  Leaves-write r f p = record { at = λ s h. written-command s r f p h }

pub ruleset command_rules = (
  Leaves-pure, Leaves-fail, Leaves-panics, Leaves-call, Leaves-deref, Leaves-some_or, Leaves-if,
  Leaves-wrap, Leaves-try, Leaves-blocks, Leaves-bind, Leaves-sleep, Leaves-read, Leaves-publish,
  Leaves-option, Leaves-attempt, Leaves-write, refl,
)

module _ ⦃os : Os⦄ {q : Ref} {c : Option Cmd} where
  pub get_prog_id-Leaves : (b : Ref) → Leaves q (HasCommand c) (get_prog_id b)
  unfolding get_prog_id
  get_prog_id-Leaves b = search command_rules depth 30

  await_pinned_map-Leaves :
      (n : ℕ) (name : String) → Leaves q (HasCommand c) (await_pinned_map n name)
  unfolding await_pinned_map
  await_pinned_map-Leaves zero name = search command_rules
  await_pinned_map-Leaves (suc n) name =
      search (command_rules, λ (k : String). await_pinned_map-Leaves n k) depth 30

  pub verify_pinned_map_exists-Leaves :
      (b : Ref) (chain : Bool) → Leaves q (HasCommand c) (verify_pinned_map_exists b chain)
  unfolding verify_pinned_map_exists
  verify_pinned_map_exists-Leaves b chain = search (command_rules, await_pinned_map-Leaves) depth 30

  assert_executable-Leaves : (path : String) → Leaves q (HasCommand c) (assert_executable path)
  unfolding assert_executable
  assert_executable-Leaves path = search command_rules depth 30

  flags-Leaves : (e : String) (m : Map Value) → Leaves q (HasCommand c) (flags e m)
  unfolding flags
  flags-Leaves e [] = search command_rules
  flags-Leaves e ((k, other v) ∷ m) = search command_rules
  flags-Leaves e ((k, str v) ∷ m) =
      search (command_rules, λ (k' : String). flags-Leaves k' m) depth 30

  is_process_running-Leaves : (pid : ℕ) → Leaves q (HasCommand c) (is_process_running pid)
  unfolding is_process_running
  is_process_running-Leaves pid = search command_rules depth 30

  await_process-Leaves : (n : ℕ) (b : Ref) → Leaves q (HasCommand c) (await_process n b)
  unfolding await_process
  await_process-Leaves zero b = search command_rules
  await_process-Leaves (suc n) b =
      search (command_rules, λ (r : Ref). await_process-Leaves n r) depth 30

  verify_process_object-Leaves : (b : Ref) → Leaves q (HasCommand c) (verify_process_object b)
  unfolding verify_process_object
  verify_process_object-Leaves b = search (command_rules, await_process-Leaves) depth 30

  pub is_running-Leaves : (b : Ref) → Leaves q (HasCommand c) (is_running b)
  unfolding is_running
  is_running-Leaves b =
      search
        (
          command_rules, assert_executable-Leaves, flags-Leaves, is_process_running-Leaves,
          verify_process_object-Leaves,
        )
        depth 40

  set_limit-Leaves :
      (b : Ref) (resource : ℕ) (limit : ℤ) → Leaves q (HasCommand c) (set_limit b resource limit)
  unfolding set_limit
  set_limit-Leaves b resource limit = search command_rules depth 30

  pub set_pr_limits-Leaves : (b : Ref) → Leaves q (HasCommand c) (set_pr_limits b)
  unfolding set_pr_limits
  set_pr_limits-Leaves b = search (command_rules, set_limit-Leaves) depth 30

  search_map-Leaves :
      (n id : ℕ) (name : String) (b : Ref) → Leaves q (HasCommand c) (search_map n id name b)
  unfolding search_map
  search_map-Leaves zero id name b = search command_rules
  search_map-Leaves (suc n) id name b =
      search (command_rules, λ (id' : ℕ). search_map-Leaves n id' name b) depth 30

  search_maps-Leaves : (b : Ref) (name : String) → Leaves q (HasCommand c) (search_maps name b)
  unfolding search_maps
  search_maps-Leaves b name = search_map-Leaves (2 ^ 32) 0 name b

  get_bpf_map-Leaves : (b : Ref) (name : String) → Leaves q (HasCommand c) (get_bpf_map b name)
  unfolding get_bpf_map
  get_bpf_map-Leaves b name = search (command_rules, search_maps-Leaves) depth 30

  assert_maps-Leaves : (b : Ref) → Leaves q (HasCommand c) (assert_maps b)
  unfolding assert_maps
  assert_maps-Leaves b = search command_rules depth 30

  add_bpf_map-Leaves : (b : Ref) (name : String) → Leaves q (HasCommand c) (add_bpf_map b name)
  unfolding add_bpf_map
  add_bpf_map-Leaves b name =
      search (command_rules, get_bpf_map-Leaves, assert_maps-Leaves) depth 30

  delete_keys-Leaves : (m : ℕ) (keys : List ℤ) → Leaves q (HasCommand c) (delete_keys m keys)
  unfolding delete_keys
  delete_keys-Leaves m [] = search command_rules
  delete_keys-Leaves m (k ∷ ks) =
      search (command_rules, λ (j : ℕ). delete_keys-Leaves j ks) depth 30

  put_keys-Leaves : (m : ℕ) (vals : List String) → Leaves q (HasCommand c) (put_keys m vals)
  unfolding put_keys
  put_keys-Leaves m [] = search command_rules
  put_keys-Leaves m (k ∷ ks) = search (command_rules, λ (j : ℕ). put_keys-Leaves j ks) depth 30

  put_values-Leaves :
      (m key : ℕ) (vals : List String) → Leaves q (HasCommand c) (put_values m key vals)
  unfolding put_values
  put_values-Leaves m key [] = search command_rules
  put_values-Leaves m key (v ∷ vs) =
      search (command_rules, λ (key' : ℕ). put_values-Leaves m key' vs) depth 30

  update_by_type-Leaves :
      (t : MapType) (m : ℕ) (vals : List String) → Leaves q (HasCommand c) (update_by_type t m vals)
  unfolding update_by_type
  update_by_type-Leaves hash m vals =
      search (command_rules, delete_keys-Leaves, put_keys-Leaves) depth 30
  update_by_type-Leaves array m vals = put_values-Leaves m 0 vals
  update_by_type-Leaves other_type m vals = search command_rules

  update_map-Leaves : (b : BpfMap) (value : String) → Leaves q (HasCommand c) (update_map b value)
  unfolding update_map
  update_map-Leaves b value = search (command_rules, update_by_type-Leaves) depth 30

  update_arg-Leaves : (b : Ref) (k v : String) → Leaves q (HasCommand c) (update_arg b k v)
  unfolding update_arg
  update_arg-Leaves b k v = search (command_rules, add_bpf_map-Leaves, update_map-Leaves) depth 30

  update_args-Leaves : (b : Ref) (m : Map Value) → Leaves q (HasCommand c) (update_args b m)
  unfolding update_args
  update_args-Leaves b [] = search command_rules
  update_args-Leaves b ((k, other v) ∷ m) = search command_rules
  update_args-Leaves b ((k, str v) ∷ m) =
      search (command_rules, update_arg-Leaves, λ (r : Ref). update_args-Leaves r m) depth 30

  pub update-Leaves : (b : Ref) (direction : String) → Leaves q (HasCommand c) (update b direction)
  unfolding update
  update-Leaves b direction = search (command_rules, update_args-Leaves) depth 30
