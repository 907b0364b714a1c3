-- ===== src/Kf/Removal.antt =====
-- Taking programs out of a chain: StopNRemoveAllBPFPrograms and RemoveMissingBPFProgramsInConfig of
-- kf/nfconfig.go, and the part that VerifyNUpdateBPFProgram has in common with the latter.
pub mod Effects
pub mod Missing
pub mod All
pub mod Gone
use l3afd.Prelude.{
  Bool, true, false, ◌&&◌, not, String, Option, none, some, is_some, List, [], ◌∷◌, ◌==◌,
  if◌then◌else◌, ℕ, zero, suc, length,
}
use l3afd.Models.{BpfProgram, BpfPrograms, L3afBpfPrograms, disabled}
use l3afd.Os.{Os}
use l3afd.Exec.{on_option, blocks, pure, gets, deref, some_or, wrap, ◌>>=◌, ◌>>◌}
use l3afd.Kf.ElementList.{Ref, Chain, next, prev, remove}
use l3afd.Kf.State.{Direction, xdp_ingress, ingress, egress, Kf}
use l3afd.Kf.Access.{direction_of, read, write, get_chain, set_chain}
use l3afd.Kf.Lifecycle.{stop}
use l3afd.Kf.Linking.{link_bpf_programs, stop_root_program}

-- The configured programs of a direction.
abbrev pub programs_of : Direction → BpfPrograms → List (Option BpfProgram)
programs_of xdp_ingress p = p.xdp_ingress
programs_of ingress p = p.tc_ingress
programs_of egress p = p.tc_egress

-- `tmpPreviousBPF.Prev() == nil && tmpPreviousBPF.Next() == nil`
abbrev pub stands_alone : Chain → Ref → Bool
stands_alone l e = not (is_some (prev l e)) && not (is_some (next l e))

-- The first element that is looked at: with chaining, the one behind the root program.
abbrev pub first_monitored : Bool → Chain → Option Ref
first_monitored chaining [] = none
first_monitored chaining (e ∷ es) = if chaining then next (e ∷ es) e else some e

module _ ⦃os : Os⦄ where
  -- The loop of StopNRemoveAllBPFPrograms over a list that no map entry refers to any more.
  unfoldable pub stop_each : String → String → Chain → Kf (Unit {0})
  stop_each iface_name direction [] = pure tt
  stop_each iface_name direction (e ∷ es) = do
    conf ← gets (λ s. s.configs.host_config)
    wrap "failed to stop program" (stop e iface_name direction conf.bpf_chaining_enabled)
    stop_each iface_name direction es

  unfoldable pub stop_n_remove_all_bpf_programs : String → String → Kf (Unit {0})
  unfolding stop_each on_option
  stop_n_remove_all_bpf_programs iface_name direction = do
    d ← some_or (direction_of direction) "unknown direction type"
    bpf_list ← get_chain d iface_name
    set_chain d iface_name none
    on_option bpf_list (pure tt) (λ l. stop_each iface_name direction l)

  -- `if tmpNextBPF != nil && tmpNextBPF.Prev() != nil { relink the next element }`
  unfoldable pub relink : Chain → Option Ref → String → Kf (Unit {0})
  unfolding on_option
  relink l none message = pure tt
  relink l (some after) message =
      on_option (prev l after) (pure tt) (λ before. wrap message (link_bpf_programs before after))

  -- Stops an element, takes it out of its list and relinks what followed it. The result is the
  -- shorter list with the element's former neighbours.
  unfoldable pub take_out :
      Ref
      → Chain
      → Direction
      → String
      → String
      → String
      → String
      → Kf (Chain × Option Ref × Option Ref)
  unfolding relink
  take_out e l d iface_name direction stop_message link_message = do
    conf ← gets (λ s. s.configs.host_config)
    wrap stop_message (stop e iface_name direction conf.bpf_chaining_enabled)
    let rest = remove l e
    set_chain d iface_name (some rest)
    relink rest (next l e) link_message
    pure (rest, prev l e, next l e)

  unfoldable pub is_configured : String → List (Option BpfProgram) → Kf Bool
  is_configured name [] = pure false
  is_configured name (p ∷ ps) = do
    bpf_config_prog ← deref p
    if bpf_config_prog.name == name then pure true else is_configured name ps

  unfoldable pub remove_missing_program : Ref → Chain → Direction → String → String → Kf (Unit {0})
  unfolding take_out
  remove_missing_program e l d iface_name direction = do
    write e (λ bpf. record bpf { program = record (bpf.program) { admin_status = disabled } })
    (rest, before, after) ←
        take_out e l d iface_name direction "failed to stop to on removed config BPF"
          "missing config - failed LinkBPFPrograms"
    tmp_previous ← deref before
    if stands_alone rest tmp_previous
        then wrap "failed to stop to root program" (stop_root_program iface_name direction)
        else pure tt

  -- The loop of RemoveMissingBPFProgramsInConfig from an element on, in the list as it is by then:
  -- `e.Next()` is read after the round. On fuel: a loop that goes on without end does not return.
  unfoldable pub remove_missing_from :
      ℕ
      → List (Option BpfProgram)
      → Chain
      → Direction
      → String
      → String
      → Option Ref
      → Kf (Unit {0})
  unfolding is_configured remove_missing_program
  remove_missing_from rounds progs l d iface_name direction none = pure tt
  remove_missing_from zero progs l d iface_name direction (some e) = blocks
  remove_missing_from (suc rounds) progs l d iface_name direction (some e) = do
    prog ← read e
    found ← is_configured prog.program.name progs
    if found then remove_missing_from rounds progs l d iface_name direction (next l e) else do
      remove_missing_program e l d iface_name direction
      let rest = remove l e
      remove_missing_from rounds progs rest d iface_name direction (next rest e)

  unfoldable pub remove_missing_bpf_programs_in_config :
      L3afBpfPrograms → String → String → Kf (Unit {0})
  unfolding remove_missing_from
  remove_missing_bpf_programs_in_config bpf_prog iface_name direction = do
    d ← some_or (direction_of direction) "unknown direction type"
    programs ← deref bpf_prog.bpf_programs
    bpf_list ← get_chain d iface_name
    l ← deref bpf_list
    conf ← gets (λ s. s.configs.host_config)
    remove_missing_from (length l) (programs_of d programs) l d iface_name direction
        (first_monitored conf.bpf_chaining_enabled l)
