-- ===== src/Kf/Configs/Tracked.antt =====
-- What DeployeBPFPrograms remembers of its interfaces, and where its goroutines work.
use l3afd.Prelude.{
  ◌≡◌, refl, sym, subst, ◌∙◌, ℕ, zero, suc, Bool, true, false, String, Option, none, some, is_some,
  List, [], ◌∷◌, ◌++◌, Map, lookup, ◌==◌, if◌then◌else◌, Bool-cases, inl, inr,
}
use l3afd.Models.{L3afBpfPrograms, xdp_ingress_type, ingress_type, egress_type}
use l3afd.Os.{Os}
use l3afd.Exec.{modify, Exec, ok, pure, fail, gets, try, wrap, ◌>>=◌, ◌>>◌}
use l3afd.Exec.After.{
  Ensures, bind-Ensures, then-Ensures, if-Ensures, pure-Ensures, fail-Ensures, bind-after,
}
use l3afd.Kf.State.{Direction, xdp_ingress, ingress, egress, NfConfigs, State}
use l3afd.Kf.Local.{bind-IsLocal, try-IsLocal, SameBut, IsLocal, local_rules}
use l3afd.Kf.Local.Removing.{remove_missing-IsLocal}
use l3afd.Kf.Quiet.{Keeps, Keeps-bind, Keeps-pure, quiet_rules}
use l3afd.Kf.Report.Quiet.{ebpf_programs-Keeps}
use l3afd.Kf.Configs.{
  Spawned, Choice, variable_after, insert_nth, in_some_order, spawned_at, spawned_if, all_spawned,
  in_payload, run_spawned, set_ifaces, stop_missing,
  remove_missing_net_ifaces_n_bpf_progs_in_config, programs_of_each, save_configs_to_config_store,
  deploy_each,
}

-- The interface of the last payload.
abbrev pub last_iface : L3afBpfPrograms → List L3afBpfPrograms → String
last_iface p [] = p.iface
last_iface p (q ∷ qs) = last_iface q qs

module _ ⦃os : Os⦄ where
  pub deploy_each-Ensures :
      (p : L3afBpfPrograms) (ps : List L3afBpfPrograms) (s : State os)
      → Ensures
          (deploy_each (p ∷ ps))
          s
          (λ _ t. t.configs.ifaces ≡ (last_iface p ps, last_iface p ps) ∷ [])
  unfolding deploy_each set_ifaces l3afd.Exec.modify
  deploy_each-Ensures p [] s = then-Ensures _ _ _ s (λ deployed t.
      if-Ensures deployed _ _ t _
        (λ _.
          bind-Ensures _ (λ _ u. u.configs.ifaces ≡ (p.iface, p.iface) ∷ []) _ _ t
            (record { at = refl }) (λ _ u e. pure-Ensures tt u _ e))
        (λ _. then-Ensures _ _ _ t (λ _ u. fail-Ensures _ u _)))
  deploy_each-Ensures p (q ∷ qs) s = then-Ensures _ _ _ s (λ deployed t.
      if-Ensures deployed _ _ t _ (λ _. then-Ensures _ _ _ t (λ _ u. deploy_each-Ensures q qs u))
        (λ _. then-Ensures _ _ _ t (λ _ u. fail-Ensures _ u _)))

-- All goroutines work on the interface `q`.
abbrev AllAt : String → List Spawned → Type 0
AllAt q [] = Unit
AllAt q (g ∷ gs) = (g.iface_name ≡ q) × AllAt q gs

abbrev AllRunAt : String → List (Spawned × ℕ) → Type 0
AllRunAt q [] = Unit
AllRunAt q ((g, n) ∷ gs) = (g.iface_name ≡ q) × AllRunAt q gs

insert_nth-AllRunAt :
    (q : String) (n m : ℕ) (g : Spawned) (gs : List (Spawned × ℕ))
    → g.iface_name ≡ q
    → AllRunAt q gs
    → AllRunAt q (insert_nth n (g, m) gs)
insert_nth-AllRunAt q n m g [] e h = (e, tt)
insert_nth-AllRunAt q zero m g ((k, i) ∷ gs) e h = (e, h)
insert_nth-AllRunAt q (suc n) m g ((k, i) ∷ gs) e h = (h.0, insert_nth-AllRunAt q n m g gs e h.1)

in_some_order-AllRunAt :
    (q : String) (choices : List Choice) (gs : List Spawned)
    → AllAt q gs
    → AllRunAt q (in_some_order choices gs)
unfolding in_some_order
in_some_order-AllRunAt q choices [] h = tt
in_some_order-AllRunAt q [] (g ∷ gs) h = (h.0, in_some_order-AllRunAt q [] gs h.1)
in_some_order-AllRunAt q (c ∷ cs) (g ∷ gs) h =
    insert_nth-AllRunAt q c.place c.rounds g (in_some_order cs gs) h.0
      (in_some_order-AllRunAt q cs gs h.1)

append-AllAt : (q : String) (gs hs : List Spawned) → AllAt q gs → AllAt q hs → AllAt q (gs ++ hs)
append-AllAt q [] hs h k = k
append-AllAt q (g ∷ gs) hs h k = (h.0, append-AllAt q gs hs h.1 k)

spawned_at-AllAt :
    (q : String) (c : NfConfigs) (d : Direction) (direction : String) (p : L3afBpfPrograms)
    (ps : List L3afBpfPrograms) (name : String)
    → name ≡ q
    → AllAt q (spawned_at c d direction p ps name)
unfolding spawned_at
spawned_at-AllAt q c d direction p ps name e =
    elim (Bool-cases (is_some (lookup name (c.chains d)))) [
      | inl there ↦ rw there (e, tt)
      | inr missing ↦ rw missing tt
    ]

-- A lookup in the map of one interface finds nothing else.
abbrev IsOnly : String → Option String → Type 0
IsOnly q none = Unit
IsOnly q (some name) = name ≡ q

lookup-IsOnly : (q key : String) (m : Map String) → m ≡ (q, q) ∷ [] → IsOnly q (lookup key m)
unfolding lookup
lookup-IsOnly q key m e = subst (λ m. IsOnly q (lookup key m)) (sym e) (found (q == key))
  where
    found : (b : Bool) → IsOnly q (if b then some q else none)
    found true = refl
    found false = tt

spawned_if-AllAt :
    (q : String) (c : NfConfigs) (p : L3afBpfPrograms) (ps : List L3afBpfPrograms)
    (o : Option String)
    → IsOnly q o
    → AllAt q (spawned_if c p ps o)
unfolding spawned_if
spawned_if-AllAt q c p ps none e = tt
spawned_if-AllAt q c p ps (some name) e =
    let xdp = spawned_at c xdp_ingress xdp_ingress_type p ps name in
    let tc_in = spawned_at c ingress ingress_type p ps name in
    let tc_out = spawned_at c egress egress_type p ps name in
    append-AllAt q xdp (tc_in ++ tc_out)
      (spawned_at-AllAt q c xdp_ingress xdp_ingress_type p ps name e)
      (append-AllAt q tc_in tc_out (spawned_at-AllAt q c ingress ingress_type p ps name e)
        (spawned_at-AllAt q c egress egress_type p ps name e))

all_spawned-AllAt :
    (q : String) (c : NfConfigs) (ps : List L3afBpfPrograms)
    → c.ifaces ≡ (q, q) ∷ []
    → AllAt q (all_spawned c ps)
unfolding all_spawned
all_spawned-AllAt q c [] e = tt
all_spawned-AllAt q c (p ∷ ps) e =
    append-AllAt q (spawned_if c p ps (lookup p.iface c.ifaces)) (all_spawned c ps)
      (spawned_if-AllAt q c p ps _ (lookup-IsOnly q p.iface c.ifaces e))
      (all_spawned-AllAt q c ps e)

module _ ⦃os : Os⦄ where
  run_spawned-IsLocal :
      (q : String) (gs : List (Spawned × ℕ)) → AllRunAt q gs → IsLocal q (run_spawned gs)
  unfolding run_spawned
  run_spawned-IsLocal q [] h = search local_rules
  run_spawned-IsLocal q ((g, n) ∷ gs) h = rw h.0 (
      bind-IsLocal q _ _
        (try-IsLocal q _
          (remove_missing-IsLocal q (variable_after n g.current g.later) g.direction))
        (λ removed. run_spawned-IsLocal q gs h.1))

  -- An interface of the payload is not stopped.
  stop_missing-none :
      (progs : List L3afBpfPrograms) (q : String) (m : Map String) (t : State os)
      → m ≡ (q, q) ∷ []
      → in_payload q progs ≡ true
      → stop_missing progs m t ≡ (ok tt, t)
  unfolding stop_missing pure ◌>>=◌
  stop_missing-none progs q m t e h = rw (e, h)

  pub remove_missing-SameBut :
      (choices : List Choice) (progs : List L3afBpfPrograms) (q : String) (s : State os)
      → s.configs.ifaces ≡ (q, q) ∷ []
      → in_payload q progs ≡ true
      → SameBut q s.configs
          (remove_missing_net_ifaces_n_bpf_progs_in_config choices progs s).1.configs
  unfolding remove_missing_net_ifaces_n_bpf_progs_in_config gets ◌>>=◌
  remove_missing-SameBut choices progs q s e h =
      bind-after (λ t. SameBut q s.configs t.configs)
        (run_spawned (in_some_order choices (all_spawned s.configs progs)))
        (λ _. gets (λ t. t.configs) >>= λ c. stop_missing progs c.ifaces) s removed
        (λ _ _. rw (stop_missing-none progs q _ _ (removed.ifaces ∙ e) h) removed)
    where
      removed :
          SameBut q s.configs
            (run_spawned (in_some_order choices (all_spawned s.configs progs)) s).1.configs
      removed =
          (run_spawned-IsLocal q _
              (in_some_order-AllRunAt q choices _ (all_spawned-AllAt q s.configs progs e))).at
            s

  -- Saving and reporting change nothing that kf keeps.
  programs_of_each-Keeps : (m : Map String) → Keeps (programs_of_each m)
  unfolding programs_of_each
  programs_of_each-Keeps [] = search quiet_rules
  programs_of_each-Keeps ((key, iface) ∷ m) =
      Keeps-bind _ _ (ebpf_programs-Keeps iface) (λ programs.
        Keeps-bind _ _ (programs_of_each-Keeps m) (λ rest. Keeps-pure (programs ∷ rest)))

  pub save-Keeps : Keeps save_configs_to_config_store
  unfolding save_configs_to_config_store
  save-Keeps = search (quiet_rules, programs_of_each-Keeps) depth 30
