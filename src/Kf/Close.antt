-- ===== src/Kf/Close.antt =====
-- Close of kf/nfconfig.go and GracefulStop of apis/configwatch.go. Three goroutines, one for each
-- direction, take the interfaces down one by one; a schedule says whose turn it is.
pub mod Emptied
use l3afd.Prelude.{
  ℕ, Bool, true, false, ◌&&◌, ◌||◌, not, String, Option, none, some, List, [], ◌∷◌, Map, delete,
  is_empty, if◌then◌else◌,
}
use l3afd.Models.{xdp_ingress_type, ingress_type, egress_type}
use l3afd.Os.{Os}
use l3afd.Exec.{pure, fail, blocks, gets, modify, try, ◌>>=◌, ◌>>◌}
use l3afd.Kf.ElementList.{Chain}
use l3afd.Kf.State.{Direction, xdp_ingress, ingress, egress, NfConfigs, Kf}
use l3afd.Kf.Access.{same_direction}
use l3afd.Kf.Removal.{stop_n_remove_all_bpf_programs}

abbrev pub name_of : Direction → String
name_of xdp_ingress = xdp_ingress_type
name_of ingress = ingress_type
name_of egress = egress_type

abbrev pub keys_of : Map (Option Chain) → List String
keys_of [] = []
keys_of ((key, l) ∷ m) = key ∷ keys_of m

-- What each goroutine has still to do.
abbrev pub Pending : Type 0
Pending = Direction → List String

abbrev pub rest_of : List String → List String
rest_of [] = []
rest_of (x ∷ xs) = xs

abbrev pub done_one : Pending → Direction → Pending
done_one w d d' = if same_direction d d' then rest_of (w d') else w d'

abbrev pub all_done : Pending → Bool
all_done w = is_empty (w xdp_ingress) && (is_empty (w ingress) && is_empty (w egress))

abbrev pub without_key : NfConfigs → Direction → String → NfConfigs
without_key c d iface = record c {
  chains = λ d'. if same_direction d d' then delete iface (c.chains d') else c.chains d';
}

-- Which case of the `select` is taken.
pub data Event : Type 0 where
  cancelled ticked early finished : Event

module _ ⦃os : Os⦄ where
  -- One round of the loop of a goroutine. An error is logged.
  unfoldable pub close_one : Direction → List String → Kf (Unit {0})
  close_one d [] = pure tt
  close_one d (iface_name ∷ rest) = do
    stopped ← try (stop_n_remove_all_bpf_programs iface_name (name_of d))
    modify (λ s. record s { configs = without_key s.configs d iface_name })

  unfoldable pub run_turns : List Direction → Pending → Kf Pending
  unfolding close_one
  run_turns [] w = pure w
  run_turns (d ∷ ds) w = do close_one d (w d); run_turns ds (done_one w d)

  -- The channel is closed once all goroutines are through, and until then that case never comes. But
  -- where `wg.Wait()` runs ahead of the first `wg.Add(1)`, it is closed early.
  unfoldable pub select : Event → Pending → Kf (Unit {0})
  select cancelled w = fail "context done"
  select ticked w = fail "nfconfig close didn't got processed in shutdownInterval"
  select early w = pure tt
  select finished w = if all_done w then pure tt else blocks

  unfoldable pub close : List Direction → Event → Kf (Unit {0})
  unfolding run_turns select
  close turns event = do
    c ← gets (λ s. s.configs)
    w ← run_turns turns (λ d. keys_of (c.chains d))
    select event w

  -- The exit code of the daemon.
  unfoldable pub graceful_stop : List Direction → Event → Kf ℕ
  unfolding close
  graceful_stop turns event = do
    c ← gets (λ s. s.configs)
    if not (is_empty (c.chains xdp_ingress))
          || (not (is_empty (c.chains ingress)) || not (is_empty (c.chains egress)))
        then (do closed ← try (close turns event); pure (if closed then 0 else 1))
        else pure 0
