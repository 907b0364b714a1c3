-- ===== src/Kf/Update/Same.antt =====
-- A configuration that is the one a program runs with.
use l3afd.Prelude.{
  false, ◌≡◌, refl, true, String, Option, none, some, [], ◌∷◌, ◌==◌, Bool-cases, inl, inr,
  if◌then◌else◌,
}
use l3afd.Models.{BpfProgram}
use l3afd.Os.{Os}
use l3afd.Exec.{on_option, ok, ◌>>=◌, pure}
use l3afd.Kf.ElementList.{Ref, Chain}
use l3afd.Kf.State.{Direction, State}
use l3afd.Kf.Access.{direction_of, chain_at, read, get_chain}
use l3afd.Kf.Equality.{program_eq}
use l3afd.Kf.View.{View, view}
use l3afd.Kf.Update.{find_program, update_element, verify_n_update_bpf_program}

-- The first struct of the chain with the name.
abbrev pub named : View → String → Chain → Option Ref
named v name [] = none
named v name (e ∷ es) = if (v.program e).name == name then some e else named v name es

-- No two programs of a chain have the same name.
abbrev pub HasNoName : View → String → Chain → Type 0
HasNoName v n [] = Unit
HasNoName v n (e ∷ es) = (((v.program e).name == n) ≡ false) × HasNoName v n es

abbrev pub HasNames : View → Chain → Type 0
HasNames v [] = Unit
HasNames v (e ∷ es) = HasNoName v (v.program e).name es × HasNames v es

module _ ⦃os : Os⦄ where
  find_program-exact :
      (s : State os) (name : String) (l : Chain)
      → find_program name l s ≡ (ok (named (view s) name l), s)
  unfolding find_program read ◌>>=◌ pure
  find_program-exact s name [] = refl
  find_program-exact s name (e ∷ es) = elim (Bool-cases ((s.bpfs e).program.name == name)) [
    | inl here ↦ rw here
    | inr other ↦ rw other (find_program-exact s name es)
  ]

  -- A program of the chain whose configuration is deeply equal to the given one is left alone: no
  -- error and no change of any state. That it runs is not looked at, so a program whose start failed is
  -- not started by deploying its configuration again.
  pub verify_n_update-same :
      (s : State os) (p : BpfProgram) (e : Ref) (l : Chain) (d : Direction)
      (iface direction : String)
      → direction_of direction ≡ some d
      → chain_at s.configs d iface ≡ some l
      → named (view s) p.name l ≡ some e
      → program_eq (s.bpfs e).program p ≡ true
      → verify_n_update_bpf_program (some p) iface direction s ≡ (ok tt, s)
  unfolding verify_n_update_bpf_program update_element get_chain read ◌>>=◌ pure on_option
  verify_n_update-same s p e l d iface direction dir there found same =
      rw (dir, there, find_program-exact s p.name l, found, same)
