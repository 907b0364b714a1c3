-- ===== src/Kf/ConfigMaps/Search.antt =====
-- The walk over the IDs of all maps ends.
use l3afd.Prelude.{
  ◌≡◌, ◌∙◌, ℕ, zero, suc, ◌+◌, ◌^◌, ◌≤◌, ◌<◌, Bool, true, false, String, some, ◌==◌, if◌then◌else◌,
  arith,
}
use l3afd.Models.{xdp_type, tc_type}
use l3afd.Os.{Os}
use l3afd.Exec.{ok, pure, some_or, ◌>>=◌}
use l3afd.Exec.Answers.{Answers, bind-Answers, pure-Answers, some_or-Answers, some_or-ok}
use l3afd.Kf.ElementList.{Ref}
use l3afd.Kf.State.{BpfMap, State, Kf}
use l3afd.Kf.Access.{call, read}
use l3afd.Kf.ConfigMaps.{kernel_name, search_map, search_maps, get_bpf_map}

module _ ⦃os : Os⦄ where
  if-Answers :
      {A : Type 0} (b : Bool) (m n : Kf A) (s : State os)
      → Answers (m s).0
      → Answers (n s).0
      → Answers ((if b then m else n) s).0
  if-Answers true m n s p q = p
  if-Answers false m n s p q = q

  call-Answers : {A : Type 0} (f : os.World → A × os.World) (s : State os) → Answers (call f s).0
  unfolding call
  call-Answers f s = tt

  call-ok :
      {A : Type 0} (f : os.World → A × os.World) (s : State os) (a : A)
      → (call f s).0 ≡ ok a
      → (f s.world).0 ≡ a
  unfolding call
  call-ok f s a h = cc

  search_map-Answers :
      (limit n id : ℕ) (name : String) (b : Ref) (s : State os)
      → ((i j : ℕ) (w : os.World) → (os.map_next_id i w).0 ≡ some j → (i < j) × (j < limit))
      → id < limit
      → limit ≤ n + id
      → Answers (search_map n id name b s).0
  unfolding search_map
  search_map-Answers limit zero id name b s rising small enough = absurd (omega arith)
  search_map-Answers limit (suc n) id name b s rising small enough =
      bind-Answers (call (os.map_next_id id)) _ s (call-Answers _ s) (λ following asked.
        bind-Answers (some_or following "failed to fetch the map object") _ _
          (some_or-Answers following _ _)
          (λ j found.
            let step = rising id j s.world (
              call-ok (os.map_next_id id) s following asked
              ∙ some_or-ok following "failed to fetch the map object" _ j found) in
            bind-Answers (call (os.map_from_id j)) _ _ (call-Answers _ _) (λ opened _.
              bind-Answers (some_or opened "failed to get NewMapFromID") _ _
                (some_or-Answers opened _ _)
                (λ fd _. bind-Answers (call (os.map_info fd)) _ _ (call-Answers _ _) (λ described _.
                  bind-Answers (some_or described "failed to fetch ebpfinfo") _ _
                    (some_or-Answers described _ _)
                    (λ info _. if-Answers (info.name == kernel_name name) _ _ _ (pure-Answers _ _) (
                      search_map-Answers limit n j name b _ rising step.1
                        (omega (arith, step.0, enough)))))))))

  read-Answers : (r : Ref) (s : State os) → Answers (read r s).0
  unfolding read
  read-Answers r s = tt

  -- The branch of a pinned map.
  pinned-Answers :
      (name : String) (b : Ref) (s : State os)
      → Answers {A = BpfMap}
          ((do
            pinned ← call (os.load_pinned_map name)
            ebpf_map ← some_or pinned "ebpf LoadPinnedMap failed"
            described ← call (os.map_info ebpf_map)
            info ← some_or described "fetching map info failed"
            map_id ← some_or info.map_id "fetching map id failed"
            pure (record { name = name; map_id = map_id; type = info.type; bpf_prog = some b }))
            s).0
  pinned-Answers name b s =
      bind-Answers (call (os.load_pinned_map name)) _ s (call-Answers _ s) (λ pinned _.
        bind-Answers (some_or pinned "ebpf LoadPinnedMap failed") _ _ (some_or-Answers pinned _ _)
          (λ fd _. bind-Answers (call (os.map_info fd)) _ _ (call-Answers _ _) (λ described _.
            bind-Answers (some_or described "fetching map info failed") _ _
              (some_or-Answers described _ _)
              (λ info _.
                bind-Answers (some_or info.map_id "fetching map id failed") _ _
                  (some_or-Answers info.map_id _ _) (λ map_id _. pure-Answers _ _)))))

  search_maps-Answers :
      (name : String) (b : Ref) (s : State os)
      → ((i j : ℕ) (w : os.World) → (os.map_next_id i w).0 ≡ some j → (i < j) × (j < 2 ^ 32))
      → Answers (search_maps name b s).0
  unfolding search_maps
  search_maps-Answers name b s rising =
      search_map-Answers (2 ^ 32) (2 ^ 32) 0 name b s rising (omega arith) (omega arith)

  -- Looking up a map returns, with the map or with an error, whatever maps there are: the IDs that the
  -- kernel hands out in the walk increase and have 32 bits.
  pub get_bpf_map-Answers :
      (b : Ref) (name : String) (s : State os)
      → ((i j : ℕ) (w : os.World) → (os.map_next_id i w).0 ≡ some j → (i < j) × (j < 2 ^ 32))
      → Answers (get_bpf_map b name s).0
  unfolding get_bpf_map
  get_bpf_map-Answers b name s rising = bind-Answers (read b) _ s (read-Answers b s) (λ bpf _.
      if-Answers (bpf.program.prog_type == tc_type) _ _ _ (pinned-Answers name b _) (
        if-Answers (bpf.program.prog_type == xdp_type) (search_maps name b) _ _
          (search_maps-Answers name b _ rising) (pure-Answers _ _)))
