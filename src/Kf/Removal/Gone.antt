-- ===== src/Kf/Removal/Gone.antt =====
-- A chain that a program is taken out of for good, down to its root program.
use l3afd.Prelude.{
  ◌≡◌, refl, sym, subst, ap, ◌∙◌, Bool, true, false, String, Option, none, some, ◌⊎◌, inr,
  if◌then◌else◌,
}
use l3afd.Models.{disabled}
use l3afd.Os.{Os}
use l3afd.Exec.{pure, wrap, deref, ◌>>=◌}
use l3afd.Kf.ElementList.{Ref, Chain, mem, next, prev, remove}
use l3afd.Kf.ElementList.Alone.{is_single, alone-is_single, prev-mem-remove}
use l3afd.Kf.State.{Bpf, Direction, State}
use l3afd.Kf.Access.{direction_of, chain_at, write_bpf}
use l3afd.Kf.View.{View, view, IsWellFormed}
use l3afd.Kf.Outcome.{
  Outcome, Outcome-mono, bind-Outcome, wrap-Outcome, write-Outcome, return-Outcome, pure-Outcome,
  panics-Outcome,
}
use l3afd.Kf.Linking.{stop_root_program}
use l3afd.Kf.Linking.Rewrite.{write-IsWellFormed}
use l3afd.Kf.Removal.{stands_alone, remove_missing_program}
use l3afd.Kf.Removal.All.{stop_root_any-Outcome}
use l3afd.Kf.Removal.Effects.{take_out-keeps_order}

-- The chain is gone where it is taken down, and otherwise well-formed without the element.
abbrev pub IsGone : Bool → Direction → String → Chain → Ref → View → Type 0
IsGone true d iface l e v = chain_at v.configs d iface ≡ none
IsGone false d iface l e v =
    (chain_at v.configs d iface ≡ some (remove l e)) × IsWellFormed v (remove l e)

-- The chain is as before, or without the element.
abbrev pub MayBeGone : Direction → String → Chain → Ref → View → Type 0
MayBeGone d iface l e v =
    (chain_at v.configs d iface ≡ some l) ⊎ (chain_at v.configs d iface ≡ some (remove l e))

module _ ⦃os : Os⦄ where
  abbrev status_struct : State os → Ref → String → Bpf
  status_struct s e status =
      let bpf = s.bpfs e in record bpf { program = record (bpf.program) { admin_status = status } }

  abbrev pub with_status : State os → Ref → String → State os
  with_status s e status = record s { bpfs = write_bpf s.bpfs e (status_struct s e status) }

  -- The admin status is nothing to the order and the links.
  pub status-IsWellFormed :
      (s : State os) (e : Ref) (status : String) (l : Chain)
      → IsWellFormed (view s) l
      → IsWellFormed (view (with_status s e status)) l
  status-IsWellFormed s e status l w =
      write-IsWellFormed s e (status_struct s e status) l refl refl refl w

  -- Taking the rest down with its root program, if the test says so.
  pub take_down-Outcome :
      (s : State os) (b : Bool) (message : String) (l : Chain) (e : Ref) (d : Direction)
      (iface direction : String)
      → direction_of direction ≡ some d
      → chain_at s.configs d iface ≡ some (remove l e)
      → IsWellFormed (view s) (remove l e)
      → Outcome
          (if b then wrap message (stop_root_program iface direction) else pure tt)
          s
          (λ _ v. IsGone b d iface l e v)
          (MayBeGone d iface l e)
  take_down-Outcome s true message l e d iface direction dir there w = wrap-Outcome _ _ s (
      Outcome-mono _ _ _ _ (λ _ v q. q)
        (λ v q. inr (ap (λ v. chain_at v.configs d iface) q ∙ there))
        (stop_root_any-Outcome s d iface direction (remove l e) dir there))
  take_down-Outcome s false message l e d iface direction dir there w = pure-Outcome tt s (there, w)

  -- The element's predecessor is used without a test: where it is nil the statement panics.
  take_down_behind-Outcome :
      (s : State os) (o : Option Ref) (message : String) (l : Chain) (e : Ref) (d : Direction)
      (iface direction : String)
      → prev l e ≡ o
      → direction_of direction ≡ some d
      → chain_at s.configs d iface ≡ some (remove l e)
      → IsWellFormed (view s) (remove l e)
      → Outcome
          (deref o >>= λ tmp.
            if stands_alone (remove l e) tmp
            then wrap message (stop_root_program iface direction)
            else pure tt)
          s
          (λ _ v. IsGone (is_single (remove l e)) d iface l e v)
          (MayBeGone d iface l e)
  take_down_behind-Outcome s none message l e d iface direction before dir there w =
      bind-Outcome (λ _ _. ⊥) _ _ _ s (panics-Outcome s (inr there)) (λ _ _ q. absurd q) (λ v q. q)
  take_down_behind-Outcome s (some tmp) message l e d iface direction before dir there w =
      return-Outcome s tmp _ (
        rw (alone-is_single (remove l e) tmp (prev-mem-remove l e tmp before))
          (take_down-Outcome s (is_single (remove l e)) message l e d iface direction dir there w))

  -- A program that is no longer configured is taken out of a well-formed chain, whatever the system
  -- answers. If no error is returned, the chain is taken down, its entry nil, where exactly one
  -- program was left, be it the root or, without chaining, a configured one, and where more were
  -- left it is well-formed without exactly that program. If it returns an error, panics or blocks, the
  -- chain is as before or without exactly that program.
  pub remove_missing_program-IsGone :
      (s : State os) (e : Ref) (l : Chain) (d : Direction) (iface direction : String)
      → direction_of direction ≡ some d
      → mem e l ≡ true
      → chain_at s.configs d iface ≡ some l
      → IsWellFormed (view s) l
      → Outcome
          (remove_missing_program e l d iface direction)
          s
          (λ _ v. IsGone (is_single (remove l e)) d iface l e v)
          (MayBeGone d iface l e)
  unfolding remove_missing_program
  remove_missing_program-IsGone s e l d iface direction dir m there w = write-Outcome s e _ _ (
      bind-Outcome _ _ _ _ _
        (take_out-keeps_order (with_status s e disabled) e l d iface direction _ _ m there
          (status-IsWellFormed s e disabled l w))
        (λ r t q. behind r t q.0 q.1 q.2) (λ v q. q))
    where
      behind :
          (r : Chain × Option Ref × Option Ref) (t : State os)
          → r ≡ (remove l e, prev l e, next l e)
          → chain_at t.configs d iface ≡ some (remove l e)
          → IsWellFormed (view t) (remove l e)
          → Outcome
              (deref r.1 >>= λ tmp.
                if stands_alone r.0 tmp
                then wrap "failed to stop to root program" (stop_root_program iface direction)
                else pure tt)
              t
              (λ _ v. IsGone (is_single (remove l e)) d iface l e v)
              (MayBeGone d iface l e)
      behind r t q there w =
          subst
            (λ (r : Chain × Option Ref × Option Ref).
              Outcome
                (deref r.1 >>= λ tmp.
                  if stands_alone r.0 tmp
                  then wrap "failed to stop to root program" (stop_root_program iface direction)
                  else pure tt)
                t (λ _ v. IsGone (is_single (remove l e)) d iface l e v) (MayBeGone d iface l e))
            (sym q) (take_down_behind-Outcome t (prev l e) _ l e d iface direction refl dir there w)
