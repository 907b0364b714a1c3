-- ===== src/Kf/ConfigMaps/Quiet.antt =====
-- The operations on configuration maps are quiet.
use l3afd.Prelude.{◌^◌, String, ℤ, ℕ, zero, suc, List, [], ◌∷◌, Map}
use l3afd.Models.{Value, str, other}
use l3afd.Os.{Os, MapType, hash, array, other_type}
use l3afd.Kf.ElementList.{Ref}
use l3afd.Kf.State.{BpfMap}
use l3afd.Kf.Quiet.{Keeps, quiet_rules}
use l3afd.Kf.ConfigMaps.{
  search_map, search_maps, get_bpf_map, assert_maps, add_bpf_map, delete_keys, put_keys, put_values,
  update_by_type, update_map, update_arg, update_args, update,
}

module _ ⦃os : Os⦄ where
  search_map-Keeps : (n id : ℕ) (name : String) (b : Ref) → Keeps (search_map n id name b)
  unfolding search_map
  search_map-Keeps zero id name b = search quiet_rules
  search_map-Keeps (suc n) id name b =
      search (quiet_rules, λ (id' : ℕ). search_map-Keeps n id' name b) depth 30

  search_maps-Keeps : (b : Ref) (name : String) → Keeps (search_maps name b)
  unfolding search_maps
  search_maps-Keeps b name = search_map-Keeps (2 ^ 32) 0 name b

  get_bpf_map-Keeps : (b : Ref) (name : String) → Keeps (get_bpf_map b name)
  unfolding get_bpf_map
  get_bpf_map-Keeps b name = search (quiet_rules, search_maps-Keeps) depth 30

  pub assert_maps-Keeps : (b : Ref) → Keeps (assert_maps b)
  unfolding assert_maps
  assert_maps-Keeps b = search quiet_rules depth 30

  add_bpf_map-Keeps : (b : Ref) (name : String) → Keeps (add_bpf_map b name)
  unfolding add_bpf_map
  add_bpf_map-Keeps b name = search (quiet_rules, get_bpf_map-Keeps, assert_maps-Keeps) depth 30

  delete_keys-Keeps : (m : ℕ) (keys : List ℤ) → Keeps (delete_keys m keys)
  unfolding delete_keys
  delete_keys-Keeps m [] = search quiet_rules
  delete_keys-Keeps m (k ∷ ks) = search (quiet_rules, λ (j : ℕ). delete_keys-Keeps j ks) depth 30

  put_keys-Keeps : (m : ℕ) (vals : List String) → Keeps (put_keys m vals)
  unfolding put_keys
  put_keys-Keeps m [] = search quiet_rules
  put_keys-Keeps m (k ∷ ks) = search (quiet_rules, λ (j : ℕ). put_keys-Keeps j ks) depth 30

  put_values-Keeps : (m key : ℕ) (vals : List String) → Keeps (put_values m key vals)
  unfolding put_values
  put_values-Keeps m key [] = search quiet_rules
  put_values-Keeps m key (v ∷ vs) =
      search (quiet_rules, λ (key' : ℕ). put_values-Keeps m key' vs) depth 30

  update_by_type-Keeps :
      (t : MapType) (m : ℕ) (vals : List String) → Keeps (update_by_type t m vals)
  unfolding update_by_type
  update_by_type-Keeps hash m vals =
      search (quiet_rules, delete_keys-Keeps, put_keys-Keeps) depth 30
  update_by_type-Keeps array m vals = put_values-Keeps m 0 vals
  update_by_type-Keeps other_type m vals = search quiet_rules

  update_map-Keeps : (b : BpfMap) (value : String) → Keeps (update_map b value)
  unfolding update_map
  update_map-Keeps b value = search (quiet_rules, update_by_type-Keeps) depth 30

  update_arg-Keeps : (b : Ref) (k v : String) → Keeps (update_arg b k v)
  unfolding update_arg
  update_arg-Keeps b k v = search (quiet_rules, add_bpf_map-Keeps, update_map-Keeps) depth 30

  update_args-Keeps : (b : Ref) (m : Map Value) → Keeps (update_args b m)
  unfolding update_args
  update_args-Keeps b [] = search quiet_rules
  update_args-Keeps b ((k, other v) ∷ m) = search quiet_rules
  update_args-Keeps b ((k, str v) ∷ m) =
      search (quiet_rules, update_arg-Keeps, λ (r : Ref). update_args-Keeps r m) depth 30

  pub update-Keeps : (b : Ref) (direction : String) → Keeps (update b direction)
  unfolding update
  update-Keeps b direction = search (quiet_rules, update_args-Keeps) depth 30
