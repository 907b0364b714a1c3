-- ===== src/Kf/Linking/Rewrite.antt =====
-- Another program in a struct of a chain.
use l3afd.Prelude.{◌≡◌, sym, ◌∙◌, none}
use l3afd.Os.{Os}
use l3afd.Kf.ElementList.{Ref, Chain}
use l3afd.Kf.ElementList.Related.{Related-mono}
use l3afd.Kf.State.{Bpf, State}
use l3afd.Kf.Access.{write_bpf}
use l3afd.Kf.View.{view, InOrder, Linked, IsWellFormed}
use l3afd.Kf.Linking.Effects.{field-kept}

module _ ⦃os : Os⦄ where
  -- Another program in a struct, with the same sequence ID and map name, keeps a chain well-formed.
  pub write-IsWellFormed :
      (s : State os) (e : Ref) (b : Bpf) (l : Chain)
      → b.program.seq_id ≡ (s.bpfs e).program.seq_id
      → b.program.map_name ≡ (s.bpfs e).program.map_name
      → b.prev_map_name ≡ (s.bpfs e).prev_map_name
      → IsWellFormed (view s) l
      → IsWellFormed (view (record s { bpfs = write_bpf s.bpfs e b })) l
  write-IsWellFormed s e b l seq name prev_name w = record {
    sorted =
        Related-mono (InOrder (view s)) (InOrder (view (record s { bpfs = write_bpf s.bpfs e b })))
          none l
          (λ x y m o.
            rw
              (
                field-kept (λ c. c.program.seq_id) s.bpfs e x b seq,
                field-kept (λ c. c.program.seq_id) s.bpfs e y b seq,
              )
              o)
          w.sorted;
    linked =
        Related-mono (Linked (view s)) (Linked (view (record s { bpfs = write_bpf s.bpfs e b })))
          none l
          (λ x y m o.
            field-kept (λ c. c.prev_map_name) s.bpfs e y b prev_name
            ∙ o
            ∙ sym (field-kept (λ c. c.program.map_name) s.bpfs e x b name))
          w.linked;
    distinct = w.distinct;
    allocated = w.allocated;
  }
