-- ===== src/Kf/Linking/Effects.antt =====
-- What linking and starting a program does to the view, whatever its outcome.
use mathlib.Core.Path.{fun_ext}
use l3afd.Prelude.{
  Map, lookup, insert, ap, lookup-insert, eq_iff, ◌≡◌, refl, ◌∙◌, suc, String, Option, none, some,
  nat_eq, nat_eq_iff, if◌then◌else◌, Bool-cases, inl, inr,
}
use l3afd.Models.{BpfProgram}
use l3afd.Os.{Os}
use l3afd.Exec.{wrap}
use l3afd.Kf.ElementList.{Ref, Chain, prev, push_back}
use l3afd.Kf.State.{Bpf, NfConfigs, xdp_ingress, ingress, egress, Direction, State}
use l3afd.Kf.Access.{write, alloc, chain_in, direction_of, write_bpf, chain_at, with_chain}
use l3afd.Kf.Quiet.{quiet_rules}
use l3afd.Kf.View.{View, view, link_view, link_behind, put_chain, alloc_view}
use l3afd.Kf.Outcome.{
  return-Outcome, Outcome-along, Outcome, quiet-Outcome, bind-Outcome, wrap-Outcome, read-Outcome,
  write-Outcome, get_chain-Outcome, gets-Outcome, set_chain-Outcome, pure-Outcome,
}
use l3afd.Kf.PinnedMaps.Quiet.{put_next_prog_fd_from_id-Keeps}
use l3afd.Kf.Artifacts.Quiet.{verify_and_get_artifacts-Keeps}
use l3afd.Kf.Lifecycle.{new_bpf_program}
use l3afd.Kf.Lifecycle.Quiet.{start-Keeps}
use l3afd.Kf.Linking.{
  link_bpf_programs, set_prev_map_name, download_and_start_bpf_program, push_back_and_start_bpf,
  alloc_program,
}

field-write :
    {A : Type 0} (g : Bpf → A) (h : Ref → Bpf) (r q : Ref) (b : Bpf)
    → g (write_bpf h r b q) ≡ (if nat_eq r q then g b else g (h q))
field-write g h r q b = elim (Bool-cases (nat_eq r q)) [ inl same ↦ rw same | inr other ↦ rw other ]

pub field-kept :
    {A : Type 0} (g : Bpf → A) (h : Ref → Bpf) (r q : Ref) (b : Bpf)
    → g b ≡ g (h r)
    → g (write_bpf h r b q) ≡ g (h q)
field-kept g h r q b p = elim (Bool-cases (nat_eq r q)) [
  | inl same ↦ rw (same, p, (nat_eq_iff r q).0 same)
  | inr other ↦ rw other
]

-- A new program at the end of a chain, linked behind its predecessor.
abbrev pub pushed : View → BpfProgram → Direction → String → Chain → View
pushed v p d iface l =
    link_behind (put_chain (alloc_view v p) d iface (some (push_back l v.next_ref)))
      (prev (push_back l v.next_ref) v.next_ref) v.next_ref

found_here :
    (m : Map (Option Chain)) (iface : String) (l : Option Chain)
    → chain_in (insert iface l m) iface ≡ l
found_here m iface l =
    ap (λ (o : Option (Option Chain)). elim o [ none ↦ none | some l ↦ l ])
      (lookup-insert iface iface l m
        ∙ ap (λ b. if b then some l else lookup iface m) ((eq_iff iface iface).1 refl))

pub chain-put :
    (c : NfConfigs) (d : Direction) (iface : String) (l : Option Chain)
    → chain_at (with_chain c d iface l) d iface ≡ l
chain-put c xdp_ingress iface l = found_here (c.chains xdp_ingress) iface l
chain-put c ingress iface l = found_here (c.chains ingress) iface l
chain-put c egress iface l = found_here (c.chains egress) iface l

module _ ⦃os : Os⦄ where
  abbrev linked_struct : State os → Ref → Ref → Bpf
  linked_struct s left right = record (s.bpfs right) {
    prev_map_name = (s.bpfs left).program.map_name;
  }

  link-view :
      (s : State os) (left right : Ref)
      → view (record s { bpfs = write_bpf s.bpfs right (linked_struct s left right) })
        ≡ link_view (view s) left right
  link-view s left right = λ i. record (view s) {
    program =
        fun_ext (λ r. field-kept (λ b. b.program) s.bpfs right r (linked_struct s left right) refl)
          i;
    prev_map_name =
        fun_ext
          (λ r. field-write (λ b. b.prev_map_name) s.bpfs right r (linked_struct s left right)) i;
  }

  pub struct-view :
      (s : State os) (b : Bpf)
      → view (record s { bpfs = write_bpf s.bpfs s.next_ref b; next_ref = suc s.next_ref })
        ≡ record (view s) {
          next_ref = suc s.next_ref;
          program = λ r. if nat_eq s.next_ref r then b.program else (s.bpfs r).program;
          prev_map_name =
              λ r. if nat_eq s.next_ref r then b.prev_map_name else (s.bpfs r).prev_map_name;
        }
  struct-view s b = λ i. record (view s) {
    next_ref = suc s.next_ref;
    program = fun_ext (λ r. field-write (λ b. b.program) s.bpfs s.next_ref r b) i;
    prev_map_name = fun_ext (λ r. field-write (λ b. b.prev_map_name) s.bpfs s.next_ref r b) i;
  }

  pub alloc-view :
      (s : State os) (p : BpfProgram) (log_dir data_center : String)
      → view (record s {
        bpfs = write_bpf s.bpfs s.next_ref (new_bpf_program p log_dir data_center);
        next_ref = suc s.next_ref;
      })
        ≡ alloc_view (view s) p
  unfolding new_bpf_program
  alloc-view s p log_dir data_center = struct-view s (new_bpf_program p log_dir data_center)

  -- The link is made even where the map of the left program cannot be updated.
  pub link_bpf_programs-Outcome :
      (s : State os) (left right : Ref)
      → Outcome
          (link_bpf_programs left right)
          s
          (λ _ v. v ≡ link_view (view s) left right)
          (λ v. v ≡ link_view (view s) left right)
  unfolding link_bpf_programs
  link_bpf_programs-Outcome s left right = read-Outcome s left _ (
      write-Outcome s right _ _ (
        read-Outcome _ right _ (
          quiet-Outcome _ _ (search (quiet_rules, put_next_prog_fd_from_id-Keeps))
            (λ a. link-view s left right) (link-view s left right))))

  set_prev_map_name-Outcome :
      (s : State os) (e : Ref) (o : Option Ref)
      → Outcome
          (set_prev_map_name e o)
          s
          (λ _ v. v ≡ link_behind (view s) o e)
          (λ v. v ≡ link_behind (view s) o e)
  unfolding set_prev_map_name write
  set_prev_map_name-Outcome s e none = pure-Outcome tt s refl
  set_prev_map_name-Outcome s e (some before) =
      read-Outcome s before _ (record { at = link-view s before e })

  pub download_and_start-Outcome :
      (s : State os) (e : Ref) (d : Direction) (iface direction : String) (l : Chain)
      → chain_at s.configs d iface ≡ some l
      → Outcome
          (download_and_start_bpf_program e d iface direction)
          s
          (λ _ v. v ≡ link_behind (view s) (prev l e) e)
          (λ v. v ≡ link_behind (view s) (prev l e) e)
  unfolding download_and_start_bpf_program
  download_and_start-Outcome s e d iface direction l p = get_chain-Outcome s d iface _ (
      rw p (
        bind-Outcome _ _ _ _ _ (set_prev_map_name-Outcome s e (prev l e))
          (λ a t q.
            quiet-Outcome _ _
              (search (quiet_rules, verify_and_get_artifacts-Keeps, start-Keeps) depth 30) (λ a. q)
              q)
          (λ v q. q)))

  pub alloc_program-Outcome :
      (E : View → Type 0) (s : State os) (p : BpfProgram)
      → Outcome (alloc_program p) s (λ r v. (r ≡ s.next_ref) × (v ≡ alloc_view (view s) p)) E
  unfolding alloc_program alloc
  alloc_program-Outcome E s p = gets-Outcome s _ _ (record {
    at = (refl, alloc-view s p s.configs.host_config.bpf_log_dir s.configs.host_config.data_center);
  })

  push_back_started :
      (s t : State os) (r : Ref) (p : BpfProgram) (d : Direction) (iface direction : String)
      (l : Chain)
      → r ≡ s.next_ref
      → view t ≡ alloc_view (view s) p
      → chain_at s.configs d iface ≡ some l
      → Outcome
          (wrap "failed to download and start the BPF"
            (download_and_start_bpf_program r d iface direction))
          (record t { configs = with_chain t.configs d iface (some (push_back l r)) })
          (λ _ v. v ≡ pushed (view s) p d iface l)
          (λ v. v ≡ pushed (view s) p d iface l)
  push_back_started s t r p d iface direction l new same there =
      Outcome-along (linked_at r (view t)) (pushed (view s) p d iface l)
        (λ i. linked_at (new i) (same i))
        (wrap-Outcome _ _ _ (
          download_and_start-Outcome _ r d iface direction (push_back l r)
            (chain-put t.configs d iface (some (push_back l r)))))
    where
      linked_at : Ref → View → View
      linked_at r v =
          link_behind (put_chain v d iface (some (push_back l r))) (prev (push_back l r) r) r

  -- A program behind the last one: the chain holds it whether or not it could be started.
  pub push_back-Outcome :
      (s : State os) (p : BpfProgram) (d : Direction) (iface direction : String) (l : Chain)
      → direction_of direction ≡ some d
      → chain_at s.configs d iface ≡ some l
      → Outcome
          (push_back_and_start_bpf p iface direction)
          s
          (λ _ v. v ≡ pushed (view s) p d iface l)
          (λ v. v ≡ pushed (view s) p d iface l)
  unfolding push_back_and_start_bpf
  push_back-Outcome s p d iface direction l dir there =
      bind-Outcome _ _ _ _ _ (alloc_program-Outcome _ s p)
        (λ r t q. rw dir (
          return-Outcome t d _ (
            get_chain-Outcome t d iface _ (
              rw (ap (λ v. chain_at v.configs d iface) q.1, there)
                (return-Outcome t l _ (
                  set_chain-Outcome t d iface _ _
                    (push_back_started s t r p d iface direction l q.0 q.1 there)))))))
        (λ v e. e)
