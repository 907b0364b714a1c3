-- ===== src/Kf/Removal/Missing.antt =====
-- Which programs RemoveMissingBPFProgramsInConfig takes out.
use l3afd.Prelude.{
  ℕ, zero, suc, ◌≤◌, arith, length, ap, subst, ◌++◌, ◌≡◌, refl, Bool, true, false, String, Option,
  none, some, List, [], ◌∷◌, map, ◌==◌, if◌then◌else◌, Bool-cases, inl, inr,
}
use l3afd.Models.{BpfProgram, BpfPrograms, L3afBpfPrograms}
use l3afd.Os.{Os}
use l3afd.Exec.{Result, continue, on_option, ok, err, panic, blocked, pure, ◌>>=◌, ◌>>◌, gets}
use l3afd.Kf.ElementList.{Ref, Chain, mem, front, next, remove}
use l3afd.Kf.ElementList.Split.{Distinct, Distinct-split, next-split, remove-split, mem-append}
use l3afd.Kf.ElementList.Alone.{next-absent}
use l3afd.Kf.State.{Direction, State, Kf}
use l3afd.Kf.Access.{direction_of, chain_at, read, get_chain}
use l3afd.Kf.View.{View, view}
use l3afd.Kf.Removal.{
  programs_of, first_monitored, is_configured, remove_missing_program, remove_missing_from,
  remove_missing_bpf_programs_in_config,
}

-- The elements that are looked at: with chaining, all but the root program.
abbrev pub monitored : Bool → Chain → Chain
monitored chaining [] = []
monitored chaining (e ∷ es) = if chaining then es else e ∷ es

append-assoc-cons : (xs ys : Chain) (e : Ref) → (xs ++ e ∷ ys) ≡ ((xs ++ e ∷ []) ++ ys)
append-assoc-cons [] ys e = refl
append-assoc-cons (x ∷ xs) ys e = ap (λ l. x ∷ l) (append-assoc-cons xs ys e)

-- Whether one of the configured programs has the name.
abbrev pub has_name : String → List BpfProgram → Bool
has_name name [] = false
has_name name (p ∷ ps) = if p.name == name then true else has_name name ps

-- The first struct whose program is not configured.
abbrev pub first_missing : View → List BpfProgram → Chain → Option Ref
first_missing v ps [] = none
first_missing v ps (e ∷ es) =
    if has_name (v.program e).name ps then first_missing v ps es else some e

module _ ⦃os : Os⦄ where
  is_configured-exact :
      (s : State os) (name : String) (ps : List BpfProgram)
      → is_configured name (map some ps) s ≡ (ok (has_name name ps), s)
  unfolding is_configured pure ◌>>=◌
  is_configured-exact s name [] = refl
  is_configured-exact s name (p ∷ ps) = elim (Bool-cases (p.name == name)) [
    | inl here ↦ rw here
    | inr other ↦ rw other (is_configured-exact s name ps)
  ]

  removed-exact : {A : Type 0} (r : Result A) (t : State os) → continue r (λ a. pure a) t ≡ (r, t)
  unfolding pure
  removed-exact (ok a) t = refl
  removed-exact (err e) t = refl
  removed-exact panic t = refl
  removed-exact blocked t = refl

  then_none-exact :
      (m : Kf (Unit {0})) (rounds : ℕ) (progs : List (Option BpfProgram)) (l : Chain)
      (d : Direction) (iface direction : String) (s : State os) (o : Option Ref)
      → o ≡ none
      → (m >> remove_missing_from rounds progs l d iface direction o) s ≡ m s
  unfolding ◌>>=◌ remove_missing_from
  then_none-exact m rounds progs l d iface direction s o q = rw q (removed-exact (m s).0 (m s).1)

  -- The loop from the second part of the list on, where there is a round for each of its elements.
  remove_missing_from-exact :
      (s : State os) (ps : List BpfProgram) (d : Direction) (iface direction : String) (rounds : ℕ)
      (done rest : Chain)
      → length rest ≤ rounds
      → Distinct (done ++ rest)
      → remove_missing_from rounds (map some ps) (done ++ rest) d iface direction (front rest) s
        ≡ on_option
            (first_missing (view s) ps rest)
            (pure tt)
            (λ e. remove_missing_program e (done ++ rest) d iface direction)
            s
  unfolding remove_missing_from read ◌>>=◌ pure on_option
  remove_missing_from-exact s ps d iface direction zero done [] fuel u = refl
  remove_missing_from-exact s ps d iface direction (suc n) done [] fuel u = refl
  remove_missing_from-exact s ps d iface direction zero done (e ∷ es) fuel u = absurd (omega arith)
  remove_missing_from-exact s ps d iface direction (suc n) done (e ∷ es) fuel u =
      let (before, after, others) = Distinct-split done es e u in
      elim (Bool-cases (has_name (s.bpfs e).program.name ps)) [
        | inl here ↦
            rw
              (
                is_configured-exact s (s.bpfs e).program.name ps,
                here,
                next-split done es e before,
                append-assoc-cons done es e,
              )
              (remove_missing_from-exact s ps d iface direction n (done ++ e ∷ []) es (omega arith)
                (subst Distinct (append-assoc-cons done es e) u))
        | inr other ↦
            rw (is_configured-exact s (s.bpfs e).program.name ps, other)
              (then_none-exact (remove_missing_program e (done ++ e ∷ es) d iface direction) n
                (map some ps) (remove (done ++ e ∷ es) e) d iface direction s
                (next (remove (done ++ e ∷ es) e) e)
                (next-absent _ e
                  (rw (remove-split done es e before, mem-append e done es, before, after) refl)))
      ]

  monitored-exact :
      (chaining : Bool) (l : Chain)
      → Distinct l
      → (s : State os) (ps : List BpfProgram) (d : Direction) (iface direction : String)
      → remove_missing_from
          (length l)
          (map some ps)
          l
          d
          iface
          direction
          (first_monitored chaining l)
          s
        ≡ on_option
            (first_missing (view s) ps (monitored chaining l))
            (pure tt)
            (λ e. remove_missing_program e l d iface direction)
            s
  unfolding mem
  monitored-exact chaining [] u s ps d iface direction =
      remove_missing_from-exact s ps d iface direction 0 [] [] (omega arith) u
  monitored-exact true (e ∷ es) u s ps d iface direction = rw (next-split [] es e refl) (
      remove_missing_from-exact s ps d iface direction (suc (length es)) (e ∷ []) es (omega arith)
        u)
  monitored-exact false (e ∷ es) u s ps d iface direction =
      remove_missing_from-exact s ps d iface direction (suc (length es)) [] (e ∷ es) (omega arith) u

  -- In a list without repetitions the loop over a chain returns, and it ends with the first removal,
  -- since the removed element has no successor: of the programs that are no longer configured one
  -- call takes out the first and no other. With chaining it never looks at the root, and if no
  -- program is missing nothing changes.
  pub remove_missing-removes_first :
      (s : State os) (b : L3afBpfPrograms) (progs : BpfPrograms) (ps : List BpfProgram) (l : Chain)
      (d : Direction) (iface direction : String)
      → direction_of direction ≡ some d
      → b.bpf_programs ≡ some progs
      → programs_of d progs ≡ map some ps
      → chain_at s.configs d iface ≡ some l
      → Distinct l
      → remove_missing_bpf_programs_in_config b iface direction s
        ≡ on_option
            (first_missing (view s) ps (monitored s.configs.host_config.bpf_chaining_enabled l))
            (pure tt)
            (λ e. remove_missing_program e l d iface direction)
            s
  unfolding remove_missing_bpf_programs_in_config get_chain ◌>>=◌ pure gets
  remove_missing-removes_first s b progs ps l d iface direction dir given names there u =
      rw (dir, given, there, names)
        (monitored-exact s.configs.host_config.bpf_chaining_enabled l u s ps d iface direction)
