-- ===== src/Kf/Update/Settings.antt =====
-- The changes that a running program takes without a restart.
use l3afd.Prelude.{◌≡◌, refl, Bool, true, false, not, String, some, if◌then◌else◌}
use l3afd.Models.{BpfProgram}
use l3afd.Os.{Os}
use l3afd.Exec.{try, pure, ◌>>=◌}
use l3afd.Kf.ElementList.{Ref, Chain, mem}
use l3afd.Kf.State.{Bpf, Direction, State}
use l3afd.Kf.Access.{chain_at, write, write_bpf}
use l3afd.Kf.Quiet.{quiet_rules}
use l3afd.Kf.ConfigMaps.{update}
use l3afd.Kf.ConfigMaps.Quiet.{update-Keeps}
use l3afd.Kf.Equality.{args_eq, monitor_maps_eq}
use l3afd.Kf.View.{View, view, IsWellFormed}
use l3afd.Kf.Outcome.{
  Outcome, quiet-Outcome, bind-Outcome, read-Outcome, write-Outcome, pure-Outcome,
}
use l3afd.Kf.Placed.Move.{NameIsUnique}
use l3afd.Kf.Linking.Effects.{field-kept}
use l3afd.Kf.Linking.Rewrite.{write-IsWellFormed}
use l3afd.Kf.Update.{change_monitoring, change_map_args, change_settings}
use l3afd.Kf.Update.Order.{SameMembers, NameIsUnique-same, change_seq_id-keeps_order}

-- A well-formed chain in which the element's name is its own.
abbrev IsReady : Direction → String → Chain → Ref → View → Type 0
IsReady d iface l e v =
    (chain_at v.configs d iface ≡ some l) × IsWellFormed v l × NameIsUnique v e l

-- The chain holds the structs of `l`.
abbrev pub HasMembers : Direction → String → Chain → View → Type 0
HasMembers d iface l v = (k : Chain) × (chain_at v.configs d iface ≡ some k) × SameMembers k l

abbrev pub IsReordered : Direction → String → Chain → View → Type 0
IsReordered d iface l v =
    (k : Chain) × (chain_at v.configs d iface ≡ some k) × IsWellFormed v k × SameMembers k l

module _ ⦃os : Os⦄ where
  written-IsReady :
      (s : State os) (e : Ref) (b : Bpf) (l : Chain) (d : Direction) (iface : String)
      → b.program.seq_id ≡ (s.bpfs e).program.seq_id
      → b.program.map_name ≡ (s.bpfs e).program.map_name
      → b.program.name ≡ (s.bpfs e).program.name
      → b.prev_map_name ≡ (s.bpfs e).prev_map_name
      → IsReady d iface l e (view s)
      → IsReady d iface l e (view (record s { bpfs = write_bpf s.bpfs e b }))
  written-IsReady s e b l d iface seq map_name name prev_name r = (
    r.0,
    write-IsWellFormed s e b l seq map_name prev_name r.1,
    NameIsUnique-same (view s) (view (record s { bpfs = write_bpf s.bpfs e b })) e l
        (λ q. field-kept (λ c. c.program.name) s.bpfs e q b name) r.2,
  )

  -- A write that changes no key, if at all.
  write_if-Outcome :
      (E : View → Type 0) (s : State os) (b : Bool) (e : Ref) (f : Bpf → Bpf) (l : Chain)
      (d : Direction) (iface : String)
      → ((c : Bpf) → (f c).program.seq_id ≡ c.program.seq_id)
      → ((c : Bpf) → (f c).program.map_name ≡ c.program.map_name)
      → ((c : Bpf) → (f c).program.name ≡ c.program.name)
      → ((c : Bpf) → (f c).prev_map_name ≡ c.prev_map_name)
      → IsReady d iface l e (view s)
      → Outcome (if b then write e f else pure tt) s (λ _ v. IsReady d iface l e v) E
  unfolding write
  write_if-Outcome E s true e f l d iface seq map_name name prev_name r = record {
    at =
        written-IsReady s e (f (s.bpfs e)) l d iface (seq (s.bpfs e)) (map_name (s.bpfs e))
          (name (s.bpfs e)) (prev_name (s.bpfs e)) r;
  }
  write_if-Outcome E s false e f l d iface seq map_name name prev_name r = pure-Outcome tt s r

  change_monitoring-Outcome :
      (E : View → Type 0) (s : State os) (p : BpfProgram) (e : Ref) (l : Chain) (d : Direction)
      (iface : String)
      → IsReady d iface l e (view s)
      → Outcome (change_monitoring p e) s (λ _ v. IsReady d iface l e v) E
  unfolding change_monitoring
  change_monitoring-Outcome E s p e l d iface r = read-Outcome s e _ (
      bind-Outcome _ _ _ _ _
        (write_if-Outcome E s (not (monitor_maps_eq (s.bpfs e).program.monitor_maps p.monitor_maps))
          e _ l d iface (λ c. refl) (λ c. refl) (λ c. refl) (λ c. refl) r)
        (λ _ t q.
          write_if-Outcome E t true e _ l d iface (λ c. refl) (λ c. refl) (λ c. refl) (λ c. refl) q)
        (λ v x. x))

  change_map_args-Outcome :
      (s : State os) (p : BpfProgram) (e : Ref) (direction : String) (l : Chain) (d : Direction)
      (iface : String)
      → IsReordered d iface l (view s)
      → Outcome
          (change_map_args p e direction)
          s
          (λ _ v. IsReordered d iface l v)
          (HasMembers d iface l)
  unfolding change_map_args
  change_map_args-Outcome s p e direction l d iface r =
      read-Outcome s e _ (changed (args_eq (s.bpfs e).program.map_args p.map_args))
    where
      new : Bpf
      new =
          let bpf = s.bpfs e in
          record bpf { program = record (bpf.program) { map_args = p.map_args } }

      written : IsReordered d iface l (view (record s { bpfs = write_bpf s.bpfs e new }))
      written = (r.0, r.1, write-IsWellFormed s e new r.0 refl refl refl r.2, r.3)

      changed :
          (b : Bool)
          → Outcome
              (if b
                then pure tt
                else (write e (λ bpf. record bpf {
                  program = record (bpf.program) { map_args = p.map_args };
                })
                    >>= λ _. try (update e direction) >>= λ updated. pure tt))
              s
              (λ _ v. IsReordered d iface l v)
              (HasMembers d iface l)
      changed true = pure-Outcome tt s r
      changed false = write-Outcome s e _ _ (
          quiet-Outcome _ _ (search (quiet_rules, update-Keeps) depth 30) (λ _. written)
            (written.0, written.1, written.3))

  -- All changes without a restart, whatever the system answers: afterwards the chain holds the same
  -- structs; if no error is returned it is well-formed, in the order of the new sequence IDs. The
  -- chain was well-formed and no other program of it has the element's name.
  pub change_settings-keeps_order :
      (s : State os) (p : BpfProgram) (e : Ref) (l : Chain) (d : Direction)
      (iface direction : String)
      → mem e l ≡ true
      → NameIsUnique (view s) e l
      → chain_at s.configs d iface ≡ some l
      → IsWellFormed (view s) l
      → Outcome
          (change_settings p e d iface direction)
          s
          (λ _ v. IsReordered d iface l v)
          (HasMembers d iface l)
  unfolding change_settings
  change_settings-keeps_order s p e l d iface direction m u there w =
      bind-Outcome _ _ _ _ _ (change_monitoring-Outcome _ s p e l d iface (there, w, u))
        (λ _ t q.
          bind-Outcome _ _ _ _ _ (change_seq_id-keeps_order t p e l d iface m q.2 q.0 q.1)
            (λ _ x r. change_map_args-Outcome x p e direction l d iface r) (λ v h. h))
        (λ v h. h)
