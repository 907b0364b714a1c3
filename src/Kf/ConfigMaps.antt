-- ===== src/Kf/ConfigMaps.antt =====
-- The maps that a program is configured through: AddBPFMap, GetBPFMap and Update of kf/bpf.go, and
-- the Update of kf/bpfmap.go.
pub mod Quiet
pub mod Search
use Prim.Native.String
use l3afd.Prelude.{
  ℕ, zero, suc, ◌+◌, ◌^◌, ℤ, pos, String, none, some, List, [], ◌∷◌, Map, lookup, insert, ltb, ◌==◌,
  if◌then◌else◌,
}
use l3afd.Prelude.Text.{split, parse_int_or_zero}
use l3afd.Models.{Value, str, other, xdp_type, tc_type}
use l3afd.Os.{Os, MapType, hash, array, other_type}
use l3afd.Stats.{nf_update_count, incr}
use l3afd.Exec.{panics, on_option, pure, fail, blocks, some_or, check, try, ◌>>=◌, ◌>>◌}
use l3afd.Kf.ElementList.{Ref}
use l3afd.Kf.State.{BpfMap, Kf}
use l3afd.Kf.Access.{call, read, write, publish}
use l3afd.Kf.Processes.{entries}

-- Map names are truncated to 15 bytes.
abbrev pub kernel_name : String → String
kernel_name name = if ltb 15 (String.len name) then String.slice name 0 15 else name

abbrev pub empty_map : BpfMap
empty_map = record { name = ""; map_id = 0; type = other_type; bpf_prog = none }

module _ ⦃os : Os⦄ where
  -- The endless `for` over the map ids. Ids are 32 bits wide and come in increasing order, so 2 ^ 32
  -- rounds are enough; a walk that needs more never ends.
  unfoldable pub search_map : ℕ → ℕ → String → Ref → Kf BpfMap
  search_map zero id map_name b = blocks
  search_map (suc n) id map_name b = do
    following ← call (os.map_next_id id)
    tmp_map_id ← some_or following "failed to fetch the map object"
    opened ← call (os.map_from_id tmp_map_id)
    ebpf_map ← some_or opened "failed to get NewMapFromID"
    described ← call (os.map_info ebpf_map)
    info ← some_or described "failed to fetch ebpfinfo"
    if info.name == kernel_name map_name
        then pure
            (record { name = map_name; map_id = tmp_map_id; type = info.type; bpf_prog = some b })
        else search_map n tmp_map_id map_name b

  unfoldable pub search_maps : String → Ref → Kf BpfMap
  search_maps map_name b = search_map (2 ^ 32) 0 map_name b

  unfoldable pub get_bpf_map : Ref → String → Kf BpfMap
  get_bpf_map b map_name = do
    bpf ← read b
    if bpf.program.prog_type == tc_type
        then (do
          pinned ← call (os.load_pinned_map map_name)
          ebpf_map ← some_or pinned "ebpf LoadPinnedMap failed"
          described ← call (os.map_info ebpf_map)
          info ← some_or described "fetching map info failed"
          map_id ← some_or info.map_id "fetching map id failed"
          pure (record { name = map_name; map_id = map_id; type = info.type; bpf_prog = some b }))
        else if bpf.program.prog_type == xdp_type
        then search_maps map_name b
        else pure empty_map

  -- A nil map takes no entry: the assignment panics.
  unfoldable pub assert_maps : Ref → Kf (Unit {0})
  assert_maps b = do bpf ← read b; if bpf.has_maps then pure tt else panics

  unfoldable pub add_bpf_map : Ref → String → Kf (Unit {0})
  unfolding assert_maps
  add_bpf_map b map_name = do
    bpf_map ← get_bpf_map b map_name
    assert_maps b
    write b (λ bpf. record bpf { bpf_maps = insert map_name bpf_map bpf.bpf_maps })

  -- A key that cannot be deleted is only logged.
  unfoldable pub delete_keys : ℕ → List ℤ → Kf (Unit {0})
  delete_keys ebpf_map [] = pure tt
  delete_keys ebpf_map (key ∷ keys) = do
    deleted ← call (os.map_delete ebpf_map key)
    delete_keys ebpf_map keys

  unfoldable pub put_keys : ℕ → List String → Kf (Unit {0})
  put_keys ebpf_map [] = pure tt
  put_keys ebpf_map (val ∷ vals) = do
    updated ← call (os.map_update ebpf_map (parse_int_or_zero val) (pos 1))
    check updated "update hash map element failed"
    put_keys ebpf_map vals

  unfoldable pub put_values : ℕ → ℕ → List String → Kf (Unit {0})
  put_values ebpf_map key [] = pure tt
  put_values ebpf_map key (val ∷ vals) = do
    updated ← call (os.map_update ebpf_map (pos key) (parse_int_or_zero val))
    check updated "update array map index"
    put_values ebpf_map (key + 1) vals

  unfoldable pub update_by_type : MapType → ℕ → List String → Kf (Unit {0})
  unfolding delete_keys put_keys put_values
  update_by_type hash ebpf_map s = do
    keys ← call (os.map_keys ebpf_map)
    delete_keys ebpf_map keys
    put_keys ebpf_map s
  update_by_type array ebpf_map s = put_values ebpf_map 0 s
  update_by_type other_type ebpf_map s = fail "unsupported map type"

  -- The Update of BPFMap.
  unfoldable pub update_map : BpfMap → String → Kf (Unit {0})
  unfolding update_by_type
  update_map b value = do
    opened ← call (os.map_from_id b.map_id)
    ebpf_map ← some_or opened "access new map from ID failed"
    update_by_type b.type ebpf_map (split b',' value)

  -- One entry of map_args. An error of the map's own Update is dropped.
  unfoldable pub update_arg : Ref → String → String → Kf (Unit {0})
  unfolding add_bpf_map update_map on_option
  update_arg b k v = do
    bpf ← read b
    on_option (lookup k bpf.bpf_maps) (add_bpf_map b k) (λ m. pure tt)
    bpf ← read b
    let bpf_map : BpfMap = elim (lookup k bpf.bpf_maps) [ some m ↦ m | none ↦ empty_map ]
    updated ← try (update_map bpf_map v)
    pure tt

  unfoldable pub update_args : Ref → Map Value → Kf (Unit {0})
  unfolding update_arg
  update_args b [] = pure tt
  update_args b ((k, other v) ∷ m) = fail "update map args is not a string"
  update_args b ((k, str v) ∷ m) = update_arg b k v >> update_args b m

  -- The Update of BPF.
  unfoldable pub update : Ref → String → Kf (Unit {0})
  unfolding update_args
  update b direction = do
    bpf ← read b
    update_args b (entries bpf.program.map_args)
    publish (incr nf_update_count bpf.program.name direction)
