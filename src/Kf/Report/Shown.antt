-- ===== src/Kf/Report/Shown.antt =====
-- What is reported of a chain, and what becomes of it as a configuration.
use l3afd.Prelude.{◌≡◌, refl, some, List, [], ◌∷◌, map}
use l3afd.Models.{BpfProgram}
use l3afd.Os.{Os}
use l3afd.Exec.{ok, pure, ◌>>=◌}
use l3afd.Kf.ElementList.{Chain}
use l3afd.Kf.State.{State}
use l3afd.Kf.Access.{read}
use l3afd.Kf.View.{View, view}
use l3afd.Kf.Report.{read_programs}

-- The programs of some structs.
abbrev pub programs_at : View → Chain → List BpfProgram
programs_at v [] = []
programs_at v (e ∷ es) = v.program e ∷ programs_at v es

module _ ⦃os : Os⦄ where
  pub read_programs-exact :
      (s : State os) (l : Chain) → read_programs l s ≡ (ok (map some (programs_at (view s) l)), s)
  unfolding read_programs read pure ◌>>=◌
  read_programs-exact s [] = refl
  read_programs-exact s (e ∷ es) = rw (read_programs-exact s es)
