-- ===== src/Kf/Deploy/InOrder.antt =====
-- Deploying the programs of one direction into a chain.
use l3afd.Prelude.{◌≡◌, sym, subst, true, false, String, some, List, [], ◌∷◌, map, ◌==◌, eq_iff}
use l3afd.Models.{BpfProgram}
use l3afd.Os.{Os}
use l3afd.Exec.{on_option}
use l3afd.Kf.ElementList.{Chain}
use l3afd.Kf.State.{Direction, State}
use l3afd.Kf.Access.{direction_of}
use l3afd.Kf.View.{View, view}
use l3afd.Kf.Outcome.{Outcome, bind-Outcome, get_chain-Outcome, pure-Outcome, wrap-Outcome}
use l3afd.Kf.Update.Members.{Evolves}
use l3afd.Kf.Update.Whole.{stays, HasChain}
use l3afd.Kf.Deploy.{deploy_program, deploy_programs}
use l3afd.Kf.Update.Follows.{Fits, Holds, Follows, verified-Follows}

abbrev pub AllFit : View → Chain → List BpfProgram → Type 0
AllFit v l [] = Unit
AllFit v l (p ∷ ps) = Fits v l p × AllFit v l ps

abbrev pub NoneNamed : String → List BpfProgram → Type 0
NoneNamed n [] = Unit
NoneNamed n (q ∷ qs) = ((q.name == n) ≡ false) × NoneNamed n qs

abbrev pub HaveNames : List BpfProgram → Type 0
HaveNames [] = Unit
HaveNames (p ∷ ps) = NoneNamed p.name ps × HaveNames ps

Fits-Evolves :
    (v v' : View) (l l' : Chain) (n : String) (q : BpfProgram)
    → Evolves n v l v' l'
    → (q.name == n) ≡ false
    → Fits v l q
    → Fits v' l' q
Fits-Evolves v v' l l' n q evolves differ fits a m same =
    let old =
      evolves a m
        (subst (λ x. (x == n) ≡ false) (sym ((eq_iff (v'.program a).name q.name).0 same)) differ) in
    subst (λ (x : BpfProgram). (stays x q ≡ true) × ((x.admin_status == q.admin_status) ≡ true))
      (sym old.1) (fits a old.0 (subst (λ (x : BpfProgram). (x.name == q.name) ≡ true) old.1 same))

AllFit-Evolves :
    (v v' : View) (l l' : Chain) (n : String) (qs : List BpfProgram)
    → Evolves n v l v' l'
    → NoneNamed n qs
    → AllFit v l qs
    → AllFit v' l' qs
AllFit-Evolves v v' l l' n [] evolves differ fits = tt
AllFit-Evolves v v' l l' n (q ∷ qs) evolves differ fits = (
  Fits-Evolves v v' l l' n q evolves differ.0 fits.0,
  AllFit-Evolves v v' l l' n qs evolves differ.1 fits.1,
)

module _ ⦃os : Os⦄ where
  deployed-Follows :
      (s : State os) (p : BpfProgram) (l : Chain) (d : Direction) (iface direction : String)
      → direction_of direction ≡ some d
      → Holds d iface (view s) l
      → Fits (view s) l p
      → Outcome
          (deploy_program d iface direction (some p))
          s
          (λ _ v. Follows d iface p.name (view s) l v)
          (HasChain d iface)
  unfolding deploy_program on_option
  deployed-Follows s p l d iface direction dir h fits =
      get_chain-Outcome s d iface _
        (rw h.0 (wrap-Outcome _ _ s (verified-Follows s p l d iface direction dir h fits)))

  -- Deploying a configuration into a chain that is in order, whatever the system answers: if no
  -- error is returned the chain is in order again, sorted by the new sequence IDs and linked, with
  -- one program for a name; on an error the entry still holds a chain. The names in the
  -- configuration differ, it disables no running program, and a program that is restarted keeps
  -- its sequence ID and its map name.
  pub deploy_programs-keeps_order :
      (ps : List BpfProgram) (s : State os) (l : Chain) (d : Direction) (iface direction : String)
      → direction_of direction ≡ some d
      → Holds d iface (view s) l
      → HaveNames ps
      → AllFit (view s) l ps
      → Outcome
          (deploy_programs d iface direction (map some ps))
          s
          (λ _ v. (k : Chain) × Holds d iface v k)
          (HasChain d iface)
  unfolding deploy_programs
  deploy_programs-keeps_order [] s l d iface direction dir h names fits = pure-Outcome tt s (l, h)
  deploy_programs-keeps_order (p ∷ ps) s l d iface direction dir h names fits =
      bind-Outcome _ _ _ _ s (deployed-Follows s p l d iface direction dir h fits.0)
        (λ _ t q.
          deploy_programs-keeps_order ps t q.0 d iface direction dir q.1 names.1
            (AllFit-Evolves (view s) (view t) l q.0 p.name ps q.2 names.0 fits.1))
        (λ v k. k)
