-- ===== src/Kf/Update/Disable.antt =====
-- Disabling a program of a chain.
use l3afd.Prelude.{
  ◌≡◌, refl, sym, subst, ap, Bool, [], ◌∷◌, arith, true, false, ◌&&◌, not, String, Option, none,
  some, is_some, inr, if◌then◌else◌,
}
use l3afd.Models.{BpfProgram}
use l3afd.Os.{Os}
use l3afd.Exec.{deref, ◌>>=◌}
use l3afd.Kf.ElementList.{Ref, Chain, mem, next, prev, remove}
use l3afd.Kf.ElementList.Alone.{is_single, alone-is_single, prev-mem-remove, remove-no_neighbours}
use l3afd.Kf.State.{Direction, State}
use l3afd.Kf.Access.{direction_of, chain_at, set_chain}
use l3afd.Kf.View.{view, IsWellFormed}
use l3afd.Kf.Outcome.{
  Outcome, bind-Outcome, write-Outcome, gets-Outcome, return-Outcome, panics-Outcome,
}
use l3afd.Kf.Linking.Effects.{chain-put}
use l3afd.Kf.Removal.Effects.{take_out-leaves}
use l3afd.Kf.Removal.Gone.{IsGone, MayBeGone, with_status, status-IsWellFormed, take_down-Outcome}
use l3afd.Kf.Update.{stop_lone_root, change_admin_status}

-- Whether the chain is taken down with the program: where nothing else is in it, or only one more
-- program while chaining is enabled, which is the root.
abbrev pub is_taken_down : Bool → Chain → Bool
is_taken_down chaining [] = true
is_taken_down chaining (x ∷ xs) = is_single (x ∷ xs) && chaining

taken_down-nonempty :
    (chaining : Bool) (l : Chain) (e : Ref)
    → mem e l ≡ true
    → is_taken_down chaining l ≡ (is_single l && chaining)
unfolding mem
taken_down-nonempty chaining [] e m = absurd (ground arith)
taken_down-nonempty chaining (x ∷ xs) e m = refl

module _ ⦃os : Os⦄ where
  abbrev chaining : State os → Bool
  chaining s = s.configs.host_config.bpf_chaining_enabled

  module _ (s : State os) (l : Chain) (e : Ref) (d : Direction) (iface direction : String)
      (dir : direction_of direction ≡ some d) (m : mem e l ≡ true)
      (there : chain_at s.configs d iface ≡ some (remove l e))
      (w : IsWellFormed (view s) (remove l e)) where
    behind-Outcome :
        (o : Option Ref)
        → prev l e ≡ o
        → Outcome
            (deref o >>= λ tmp. stop_lone_root (remove l e) tmp iface direction)
            s
            (λ _ v. IsGone (is_taken_down (chaining s) (remove l e)) d iface l e v)
            (MayBeGone d iface l e)
    unfolding stop_lone_root
    behind-Outcome none before =
        bind-Outcome (λ _ _. ⊥) _ _ _ s (panics-Outcome s (inr there)) (λ _ _ q. absurd q)
          (λ v q. q)
    behind-Outcome (some tmp) before =
        let left = prev-mem-remove l e tmp before in
        return-Outcome s tmp _ (
          gets-Outcome s _ _ (
            rw
              (
                alone-is_single (remove l e) tmp left,
                taken_down-nonempty (chaining s) (remove l e) tmp left,
              )
              (take_down-Outcome s (is_single (remove l e) && chaining s) _ l e d iface direction
                dir there w)))

    ending-Outcome :
        (b : Bool)
        → (not (is_some (prev l e)) && not (is_some (next l e))) ≡ b
        → Outcome
            (if b
              then set_chain d iface none
              else (deref (prev l e) >>= λ tmp. stop_lone_root (remove l e) tmp iface direction))
            s
            (λ _ v. IsGone (is_taken_down (chaining s) (remove l e)) d iface l e v)
            (MayBeGone d iface l e)
    unfolding set_chain
    ending-Outcome true alone =
        rw (remove-no_neighbours l e m (ground arith) (ground arith))
          (record { at = chain-put s.configs d iface none })
    ending-Outcome false alone = behind-Outcome (prev l e) refl

    answered-Outcome :
        (r : Chain × Option Ref × Option Ref)
        → r ≡ (remove l e, prev l e, next l e)
        → Outcome
            (if not (is_some r.1) && not (is_some r.2)
              then set_chain d iface none
              else (deref r.1 >>= λ tmp. stop_lone_root r.0 tmp iface direction))
            s
            (λ _ v. IsGone (is_taken_down (chaining s) (remove l e)) d iface l e v)
            (MayBeGone d iface l e)
    answered-Outcome r q =
        subst
          (λ (r : Chain × Option Ref × Option Ref).
            Outcome
              (if not (is_some r.1) && not (is_some r.2)
                then set_chain d iface none
                else (deref r.1 >>= λ tmp. stop_lone_root r.0 tmp iface direction))
              s (λ _ v. IsGone (is_taken_down (chaining s) (remove l e)) d iface l e v)
              (MayBeGone d iface l e))
          (sym q) (ending-Outcome (not (is_some (prev l e)) && not (is_some (next l e))) refl)

  -- Changing the admin status of a program takes it out of its well-formed chain, whatever the system
  -- answers. If no error is returned, the chain is taken down, its entry nil, where the program was the
  -- only one, or where exactly one more (the root) was left and chaining is enabled; in all other
  -- cases it is well-formed without exactly that program. If it returns an error, panics or
  -- blocks, the chain is as before or without exactly that program.
  pub change_admin_status-IsGone :
      (s : State os) (p : BpfProgram) (e : Ref) (l : Chain) (d : Direction)
      (iface direction : String)
      → direction_of direction ≡ some d
      → mem e l ≡ true
      → chain_at s.configs d iface ≡ some l
      → IsWellFormed (view s) l
      → Outcome
          (change_admin_status p e l d iface direction)
          s
          (λ _ v.
            IsGone
              (is_taken_down s.configs.host_config.bpf_chaining_enabled (remove l e))
              d
              iface
              l
              e
              v)
          (MayBeGone d iface l e)
  unfolding change_admin_status
  change_admin_status-IsGone s p e l d iface direction dir m there w = write-Outcome s e _ _ (
      bind-Outcome _ _ _ _ _
        (take_out-leaves (with_status s e p.admin_status) e l d iface direction _ _ m there
          (status-IsWellFormed s e p.admin_status l w))
        (λ r t q.
          subst
            (λ (c : Bool).
              Outcome
                (if not (is_some r.1) && not (is_some r.2)
                  then set_chain d iface none
                  else (deref r.1 >>= λ tmp. stop_lone_root r.0 tmp iface direction))
                t (λ _ v. IsGone (is_taken_down c (remove l e)) d iface l e v)
                (MayBeGone d iface l e))
            (ap (λ h. h.bpf_chaining_enabled) q.0)
            (answered-Outcome t l e d iface direction dir m q.2 q.3 r q.1))
        (λ v q. q))
