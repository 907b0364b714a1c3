-- ===== src/Kf/Deploy/Again.antt =====
-- Deploying what is already deployed.
use l3afd.Prelude.{◌≡◌, some, [], ◌∷◌}
use l3afd.Os.{Os}
use l3afd.Kf.ElementList.{Chain}
use l3afd.Kf.State.{State}
use l3afd.Kf.View.{View}
use l3afd.Kf.Equality.Sound.{HasMaps}
use l3afd.Kf.Update.Same.{named}

-- The arguments of all programs are maps.
abbrev pub AllHaveMaps : View → Chain → Type 0
AllHaveMaps v [] = Unit
AllHaveMaps v (e ∷ es) = HasMaps (v.program e) × AllHaveMaps v es

-- The name of each of some structs leads to it.
abbrev AllNamed : View → Chain → Chain → Type 0
AllNamed v l [] = Unit
AllNamed v l (e ∷ es) = (named v (v.program e).name l ≡ some e) × AllNamed v l es
