-- ===== src/Kf/Update/Version.antt =====
-- A new version of a program that stays in its place.
use mathlib.Core.Path.{fun_ext}
use l3afd.Prelude.{
  ◌≡◌, refl, sym, ap, ◌∙◌, subst, true, String, Option, none, some, ◌∷◌, nat_eq, nat_eq_iff,
  if◌then◌else◌, Bool-cases, inl, inr,
}
use l3afd.Models.{BpfProgram}
use l3afd.Os.{Os}
use l3afd.Kf.ElementList.{Ref, Chain, mem, prev, next}
use l3afd.Kf.ElementList.Split.{split_at, prev-split}
use l3afd.Kf.ElementList.Related.{After, Related, Related-parts}
use l3afd.Kf.State.{Direction, State}
use l3afd.Kf.Access.{chain_at}
use l3afd.Kf.Quiet.{Keeps, quiet_rules}
use l3afd.Kf.PinnedMaps.Quiet.{put_next_prog_fd_from_id-Keeps}
use l3afd.Kf.Lifecycle.Quiet.{stop-Keeps}
use l3afd.Kf.View.{View, view, Linked, IsWellFormed, link_behind}
use l3afd.Kf.Outcome.{
  Outcome, Outcome-mono, quiet-Outcome, bind-Outcome, then-Outcome, wrap-Outcome, write-Outcome,
  gets-Outcome,
}
use l3afd.Kf.Linking.Effects.{download_and_start-Outcome}
use l3afd.Kf.Linking.Rewrite.{write-IsWellFormed}
use l3afd.Kf.Update.{put_next, change_version}

-- The chain is as it was and still well-formed.
abbrev pub IsKept : Direction → String → Chain → View → Type 0
IsKept d iface l v = (chain_at v.configs d iface ≡ some l) × IsWellFormed v l

-- Linking an element of a linked list behind its predecessor again changes nothing.
behind_again : (v : View) (o : Option Ref) (e : Ref) → After (Linked v) o e → link_behind v o e ≡ v
behind_again v none e p = refl
behind_again v (some b) e p = λ i. record v { prev_map_name = fun_ext (λ r. same r) i }
  where
    same :
        (r : Ref)
        → (if nat_eq e r then (v.program b).map_name else v.prev_map_name r) ≡ v.prev_map_name r
    same r = elim (Bool-cases (nat_eq e r)) [
      | inl here ↦ rw here (sym p ∙ ap (λ r. v.prev_map_name r) ((nat_eq_iff e r).0 here))
      | inr differs ↦ rw differs
    ]

prev-Linked :
    (v : View) (l : Chain) (e : Ref)
    → mem e l ≡ true
    → Related (Linked v) none l
    → After (Linked v) (prev l e) e
prev-Linked v l e m r =
    let s = split_at l e m in
    let parts =
      Related-parts (Linked v) none s.before (e ∷ s.after)
        (subst (λ k. Related (Linked v) none k) s.split r) in
    subst (λ o. After (Linked v) o e)
      (sym (ap (λ l. prev l e) s.split ∙ prev-split s.before s.after e s.fresh)) parts.1.0

module _ ⦃os : Os⦄ where
  put_next-Keeps : (e : Ref) (o : Option Ref) → Keeps (put_next e o)
  unfolding put_next
  put_next-Keeps e none = search quiet_rules
  put_next-Keeps e (some after) = search (quiet_rules, put_next_prog_fd_from_id-Keeps) depth 30

  -- A new version, whatever the system answers: the chain is as it was and well-formed, if the new
  -- configuration has the sequence ID and the map name of the old one.
  pub change_version-IsKept :
      (s : State os) (p : BpfProgram) (e : Ref) (l : Chain) (d : Direction)
      (iface direction : String)
      → mem e l ≡ true
      → p.seq_id ≡ (s.bpfs e).program.seq_id
      → p.map_name ≡ (s.bpfs e).program.map_name
      → chain_at s.configs d iface ≡ some l
      → IsWellFormed (view s) l
      → Outcome
          (change_version p e l d iface direction)
          s
          (λ _ v. IsKept d iface l v)
          (IsKept d iface l)
  unfolding change_version
  change_version-IsKept s p e l d iface direction m seq name there w = gets-Outcome s _ _ (
      then-Outcome _ _ s (search (quiet_rules, stop-Keeps))
        (λ _ t q.
          let here : chain_at t.configs d iface ≡ some l =
            ap (λ v. chain_at v.configs d iface) q ∙ there in
          let new =
            write-IsWellFormed t e (record (t.bpfs e) { program = p }) l
              (seq ∙ sym (ap (λ v. (v.program e).seq_id) q))
              (name ∙ sym (ap (λ v. (v.program e).map_name) q)) refl
              (subst (λ v. IsWellFormed v l) (sym q) w) in
          write-Outcome t e _ _ (
            bind-Outcome _ _ _ _ _
              (wrap-Outcome _ _ _ (
                Outcome-mono _ _ _ _ (λ _ v r. kept r here new) (λ v r. kept r here new)
                  (download_and_start-Outcome _ e d iface direction l here)))
              (λ _ u k. quiet-Outcome _ u (put_next-Keeps e (next l e)) (λ _. k) k) (λ v k. k)))
        (there, w))
    where
      kept :
          {v u : View}
          → v ≡ link_behind u (prev l e) e
          → chain_at u.configs d iface ≡ some l
          → IsWellFormed u l
          → IsKept d iface l v
      kept {u = u} r here new =
          subst (IsKept d iface l)
            (sym (r ∙ behind_again u (prev l e) e (prev-Linked u l e m new.linked))) (here, new)
