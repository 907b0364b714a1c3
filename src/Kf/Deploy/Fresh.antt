-- ===== src/Kf/Deploy/Fresh.antt =====
-- The first program of a direction: a new chain.
use l3afd.Prelude.{◌≡◌, sym, subst, pos, ◌≤ℤ◌, String, none, some, is_some, [], if◌then◌else◌}
use l3afd.Models.{BpfProgram}
use l3afd.Os.{Os}
use l3afd.Exec.{
  Result, ok, err, panic, blocked, continue, value_of, attempt, fail, pure, ◌>>=◌, ◌>>◌,
}
use l3afd.Kf.ElementList.{Chain, push_back}
use l3afd.Kf.State.{Direction, xdp_ingress, ingress, egress, State}
use l3afd.Kf.Access.{direction_of, chain_at, set_chain}
use l3afd.Kf.View.{View, view, IsWellFormed}
use l3afd.Kf.Outcome.{Post, Outcome, Outcome-mono, bind-Outcome, wrap-Outcome, set_chain-Outcome}
use l3afd.Kf.Linking.Effects.{chain-put, push_back-Outcome}
use l3afd.Kf.Deploy.{or_clean_up, start_chain}
use l3afd.Kf.Deploy.Rooted.{IsRooted, root-Outcome, pushed-IsWellFormed}

module _ ⦃os : Os⦄ where
  -- An error is followed by the clean-up and returned.
  or_clean_up-Outcome :
      (P : View → Type 0) (s : State os) (m : l3afd.Kf.State.Kf (Unit {0})) (d : Direction)
      (iface e : String)
      → Outcome m s (λ _ v. P v) (λ v. Unit)
      → Outcome (or_clean_up m (set_chain d iface none) e) s (λ _ v. P v) (λ v. Unit)
  unfolding or_clean_up attempt set_chain fail pure ◌>>=◌
  or_clean_up-Outcome P s m d iface e o = record { at = cleaned (m s).0 (m s).1 o.at }
    where
      cleaned :
          (r : Result (Unit {0})) (t : State os)
          → Post (λ _ v. P v) (λ v. Unit) r (view t)
          → Post {A = Unit {0}}
              (λ _ v. P v)
              (λ v. Unit)
              (continue
                (value_of r)
                (λ done. if is_some done then pure tt else (set_chain d iface none >> fail e))
                t).0
              (view
                (continue
                  (value_of r)
                  (λ done. if is_some done then pure tt else (set_chain d iface none >> fail e))
                  t).1)
      cleaned (ok a) t p = p
      cleaned (err _) t p = tt
      cleaned panic t p = tt
      cleaned blocked t p = tt

  -- Starting the chain of a direction with its first program, whose sequence ID is not negative: if no
  -- error is returned the entry holds a well-formed chain.
  pub start_chain-IsWellFormed :
      (s : State os) (p : BpfProgram) (d : Direction) (iface direction : String)
      → direction_of direction ≡ some d
      → pos 0 ≤ℤ p.seq_id
      → Outcome
          (start_chain p d iface direction)
          s
          (λ _ v. (k : Chain) × (chain_at v.configs d iface ≡ some k) × IsWellFormed v k)
          (λ v. Unit)
  unfolding start_chain
  start_chain-IsWellFormed s p d iface direction dir h = set_chain-Outcome s d iface _ _ (
      bind-Outcome _ _ _ _ _
        (or_clean_up-Outcome (IsRooted d iface) _ _ d iface _
          (root-Outcome _ d iface direction dir (chain-put s.configs d iface (some []))))
        (λ _ t q.
          let made = pushed-IsWellFormed (view t) p d iface q h in
          wrap-Outcome _ _ t (
            Outcome-mono _ _ _ _
              (λ _ v r.
                subst (λ v. (k : Chain) × (chain_at v.configs d iface ≡ some k) × IsWellFormed v k)
                  (sym r) (push_back made.0 t.next_ref, made.2, made.3))
              (λ v r. tt) (push_back-Outcome t p d iface direction made.0 dir made.1)))
        (λ v r. tt))
