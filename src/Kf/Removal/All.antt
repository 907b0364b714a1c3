-- ===== src/Kf/Removal/All.antt =====
-- Taking a whole chain down: StopNRemoveAllBPFPrograms and StopRootProgram.
use l3afd.Prelude.{◌≡◌, refl, String, Option, none, some, [], ◌∷◌}
use l3afd.Os.{Os}
use l3afd.Exec.{on_option, pure}
use l3afd.Kf.ElementList.{Ref, Chain, remove}
use l3afd.Kf.State.{Direction, State}
use l3afd.Kf.Access.{direction_of, chain_at, with_chain, set_chain}
use l3afd.Kf.Quiet.{Keeps, quiet_rules}
use l3afd.Kf.View.{view, put_chain}
use l3afd.Kf.Outcome.{
  bind-Outcome, panics-Outcome, Outcome, quiet-Outcome, then-Outcome, return-Outcome, gets-Outcome,
  get_chain-Outcome, set_chain-Outcome,
}
use l3afd.Kf.Lifecycle.Quiet.{stop-Keeps}
use l3afd.Kf.Linking.{stop_root_program}
use l3afd.Kf.Linking.Effects.{chain-put}
use l3afd.Kf.Removal.{stop_each, stop_n_remove_all_bpf_programs}

module _ ⦃os : Os⦄ where
  stop_each-Keeps : (iface direction : String) (l : Chain) → Keeps (stop_each iface direction l)
  unfolding stop_each
  stop_each-Keeps iface direction [] = search quiet_rules
  stop_each-Keeps iface direction (e ∷ es) =
      search (quiet_rules, stop-Keeps, λ (dir : String). stop_each-Keeps iface dir es) depth 30

  stop_list-Keeps :
      (iface direction : String) (o : Option Chain)
      → Keeps (on_option o (pure tt) (λ l. stop_each iface direction l))
  stop_list-Keeps iface direction o = search (quiet_rules, stop_each-Keeps) depth 30

  -- Removing all programs of a direction empties its entry first: it is nil afterwards even where a
  -- program could not be stopped, whose process and those behind it then stand in no chain.
  pub stop_n_remove_all-Outcome :
      (s : State os) (d : Direction) (iface direction : String)
      → direction_of direction ≡ some d
      → Outcome
          (stop_n_remove_all_bpf_programs iface direction)
          s
          (λ _ v. v ≡ put_chain (view s) d iface none)
          (λ v. v ≡ put_chain (view s) d iface none)
  unfolding stop_n_remove_all_bpf_programs
  stop_n_remove_all-Outcome s d iface direction dir = rw dir (
      return-Outcome s d _ (
        get_chain-Outcome s d iface _ (
          set_chain-Outcome s d iface _ _ (
            quiet-Outcome _ _ (stop_list-Keeps iface direction (chain_at s.configs d iface))
              (λ _. refl) refl))))

  -- Stopping the root program takes its chain down, or leaves everything of the chains alone where it
  -- cannot be stopped.
  pub stop_root-Outcome :
      (s : State os) (d : Direction) (iface direction : String) (root : Ref) (l : Chain)
      → direction_of direction ≡ some d
      → chain_at s.configs d iface ≡ some (root ∷ l)
      → Outcome
          (stop_root_program iface direction)
          s
          (λ _ v. chain_at v.configs d iface ≡ none)
          (λ v. v ≡ view s)
  unfolding stop_root_program on_option set_chain
  stop_root-Outcome s d iface direction root l dir there = rw dir (
      return-Outcome s d _ (
        get_chain-Outcome s d iface _ (
          rw there (
            return-Outcome s root _ (
              gets-Outcome s _ _ (
                then-Outcome _ _ s (search (quiet_rules, stop-Keeps))
                  (λ _ t q. set_chain-Outcome t d iface _ _ (record {
                    at =
                        chain-put (with_chain t.configs d iface (some (remove (root ∷ l) root))) d
                          iface none;
                  }))
                  refl))))))

  -- The same for any list; an empty one panics.
  pub stop_root_any-Outcome :
      (s : State os) (d : Direction) (iface direction : String) (l : Chain)
      → direction_of direction ≡ some d
      → chain_at s.configs d iface ≡ some l
      → Outcome
          (stop_root_program iface direction)
          s
          (λ _ v. chain_at v.configs d iface ≡ none)
          (λ v. v ≡ view s)
  unfolding stop_root_program on_option
  stop_root_any-Outcome s d iface direction [] dir there = rw dir (
      return-Outcome s d _ (
        get_chain-Outcome s d iface _ (
          rw there (
            bind-Outcome (λ _ _. ⊥) _ _ _ s (panics-Outcome s refl) (λ _ _ q. absurd q)
              (λ v q. q)))))
  stop_root_any-Outcome s d iface direction (root ∷ l) dir there =
      stop_root-Outcome s d iface direction root l dir there
