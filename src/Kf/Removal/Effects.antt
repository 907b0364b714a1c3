-- ===== src/Kf/Removal/Effects.antt =====
-- What taking a program out of its chain does, whatever the system answers.
use l3afd.Prelude.{◌≡◌, refl, ap, ◌∙◌, sym, subst, true, String, Option, none, some, ◌⊎◌, inl, inr}
use l3afd.Os.{Os}
use l3afd.Exec.{on_option, pure, wrap}
use l3afd.Kf.ElementList.{Ref, Chain, mem, next, prev, remove}
use l3afd.Kf.State.{Direction, State}
use l3afd.Kf.Access.{chain_at}
use l3afd.Kf.Quiet.{quiet_rules}
use l3afd.Kf.View.{View, view, IsWellFormed, link_behind, put_chain}
use l3afd.Kf.Outcome.{
  Outcome, Outcome-mono, bind-Outcome, then-Outcome, wrap-Outcome, gets-Outcome, set_chain-Outcome,
  pure-Outcome,
}
use l3afd.Kf.Placed.Remove.{rejoined, remove-IsWellFormed}
use l3afd.Kf.Placed.Insert.{put-IsWellFormed}
use l3afd.Kf.Lifecycle.Quiet.{stop-Keeps}
use l3afd.Kf.Linking.{link_bpf_programs}
use l3afd.Kf.Linking.Effects.{chain-put, link_bpf_programs-Outcome}
use l3afd.Kf.Removal.{relink, take_out}

module _ ⦃os : Os⦄ where
  relink-Outcome :
      (s : State os) (rest : Chain) (o : Option Ref) (message : String)
      → Outcome
          (relink rest o message)
          s
          (λ _ v. v ≡ rejoined (view s) rest o)
          (λ v. v ≡ rejoined (view s) rest o)
  unfolding relink on_option
  relink-Outcome s rest none message = pure-Outcome tt s refl
  relink-Outcome s rest (some after) message = linked (prev rest after)
    where
      linked :
          (o : Option Ref)
          → Outcome
              (on_option o (pure tt) (λ before. wrap message (link_bpf_programs before after)))
              s
              (λ _ v. v ≡ link_behind (view s) o after)
              (λ v. v ≡ link_behind (view s) o after)
      linked none = pure-Outcome tt s refl
      linked (some before) = wrap-Outcome _ _ s (link_bpf_programs-Outcome s before after)

  behind-chain :
      (v : View) (d : Direction) (iface : String) (k : Chain) (o : Option Ref) (n : Ref)
      → chain_at (link_behind (put_chain v d iface (some k)) o n).configs d iface ≡ some k
  behind-chain v d iface k none n = chain-put v.configs d iface (some k)
  behind-chain v d iface k (some a) n = chain-put v.configs d iface (some k)

  pub rejoined-chain :
      (v : View) (d : Direction) (iface : String) (k : Chain) (o : Option Ref)
      → chain_at (rejoined (put_chain v d iface (some k)) k o).configs d iface ≡ some k
  rejoined-chain v d iface k none = chain-put v.configs d iface (some k)
  rejoined-chain v d iface k (some n) = behind-chain v d iface k (prev k n) n

  rejoined-host :
      (v : View) (k : Chain) (o : Option Ref)
      → (rejoined v k o).configs.host_config ≡ v.configs.host_config
  rejoined-host v k none = refl
  rejoined-host v k (some n) = behind (prev k n)
    where
      behind : (o : Option Ref) → (link_behind v o n).configs.host_config ≡ v.configs.host_config
      behind none = refl
      behind (some a) = refl

  pub take_out-Outcome :
      (s : State os) (e : Ref) (l : Chain) (d : Direction) (iface direction m1 m2 : String)
      → Outcome
          (take_out e l d iface direction m1 m2)
          s
          (λ r v.
            (r ≡ (remove l e, prev l e, next l e))
            × (v
                ≡ rejoined
                    (put_chain (view s) d iface (some (remove l e)))
                    (remove l e)
                    (next l e)))
          (λ v.
            (v ≡ view s)
            ⊎ (v
                ≡ rejoined
                    (put_chain (view s) d iface (some (remove l e)))
                    (remove l e)
                    (next l e)))
  unfolding take_out
  take_out-Outcome s e l d iface direction m1 m2 = gets-Outcome s _ _ (
      then-Outcome _ _ s (search (quiet_rules, stop-Keeps))
        (λ _ t q. set_chain-Outcome t d iface _ _ (
          bind-Outcome _ _ _ _ _ (relink-Outcome _ (remove l e) (next l e) m2)
            (λ _ u r. pure-Outcome _ u (refl, r ∙ put_from q)) (λ v r. inr (r ∙ put_from q))))
        (inl refl))
    where
      put_from :
          {v w : View}
          → v ≡ w
          → rejoined (put_chain v d iface (some (remove l e))) (remove l e) (next l e)
            ≡ rejoined (put_chain w d iface (some (remove l e))) (remove l e) (next l e)
      put_from q =
          ap (λ v. rejoined (put_chain v d iface (some (remove l e))) (remove l e) (next l e)) q

  -- The settings of the host, and what `take_out-keeps_order` states.
  pub take_out-leaves :
      (s : State os) (e : Ref) (l : Chain) (d : Direction) (iface direction m1 m2 : String)
      → mem e l ≡ true
      → chain_at s.configs d iface ≡ some l
      → IsWellFormed (view s) l
      → Outcome
          (take_out e l d iface direction m1 m2)
          s
          (λ r v.
            (v.configs.host_config ≡ s.configs.host_config)
            × (r ≡ (remove l e, prev l e, next l e))
            × (chain_at v.configs d iface ≡ some (remove l e))
            × IsWellFormed v (remove l e))
          (λ v.
            (chain_at v.configs d iface ≡ some l)
            ⊎ (chain_at v.configs d iface ≡ some (remove l e)))
  take_out-leaves s e l d iface direction m1 m2 m there w =
      Outcome-mono _ _ _ _
        (λ _ v q. (
          ap (λ v. v.configs.host_config) q.1 ∙ rejoined-host _ rest (next l e),
          q.0,
          ap (λ v. chain_at v.configs d iface) q.1
              ∙ rejoined-chain (view s) d iface rest (next l e),
          subst (λ v. IsWellFormed v rest) (sym q.1)
              (remove-IsWellFormed _ l e m (put-IsWellFormed (view s) d iface (some rest) l w)),
        ))
        (λ v q. elim q [
          | inl same ↦ inl (ap (λ v. chain_at v.configs d iface) same ∙ there)
          | inr out ↦ inr (
              ap (λ v. chain_at v.configs d iface) out
              ∙ rejoined-chain (view s) d iface rest (next l e))
        ])
        (take_out-Outcome s e l d iface direction m1 m2)
    where
      rest : Chain
      rest = remove l e

  -- Stopping an element and taking it out of a well-formed chain, whatever the system answers: the
  -- chain is as before, or it has lost exactly that element. If no error is returned it has lost the
  -- element and is well-formed, its former successor linked behind its former predecessor, and the
  -- result is the shorter list with the element's former neighbours.
  pub take_out-keeps_order :
      (s : State os) (e : Ref) (l : Chain) (d : Direction) (iface direction m1 m2 : String)
      → mem e l ≡ true
      → chain_at s.configs d iface ≡ some l
      → IsWellFormed (view s) l
      → Outcome
          (take_out e l d iface direction m1 m2)
          s
          (λ r v.
            (r ≡ (remove l e, prev l e, next l e))
            × (chain_at v.configs d iface ≡ some (remove l e))
            × IsWellFormed v (remove l e))
          (λ v.
            (chain_at v.configs d iface ≡ some l)
            ⊎ (chain_at v.configs d iface ≡ some (remove l e)))
  take_out-keeps_order s e l d iface direction m1 m2 m there w =
      Outcome-mono _ _ _ _ (λ _ v q. (q.1, q.2, q.3)) (λ v q. q)
        (take_out-leaves s e l d iface direction m1 m2 m there w)
