-- ===== src/Tests/Files.antt =====
-- Unpacking archives and monitoring on the system of the tests.
use Prim.Native.String
use text.Mathlib.Text.{starts_with}
use l3afd.Prelude.{◌≡◌, refl, true, false, String, List, [], ◌∷◌, arith}
use l3afd.Prelude.Text.{contains, clean, join}
use l3afd.Os.{Entry}
use l3afd.Kf.Artifacts.{extract_zip, extract_tar}
use l3afd.Kf.Artifacts.Inside.{extract_zip-stays_inside, extract_tar-stays_inside}
use l3afd.Kf.Monitor.{PCheck, monitor_round}
use l3afd.Kf.Monitor.Bounds.{IsBounded, start_round, next_round, Rounds-IsBounded}
use l3afd.Tests.World.{willing_os, start_state, chains}
use l3afd.Kf.State.{xdp_ingress}

abbrev AreInside : String → List String → Type 0
AreInside dir [] = Unit
AreInside dir (path ∷ paths) =
    ((name : String) × (path ≡ join (dir ∷ name ∷ []))
      × (starts_with path (String.◌++◌ (clean dir) "/") ≡ true))
    × AreInside dir paths

abbrev file : String → Entry
file name = record { name = name; readable = true; is_directory = false; body = "" }

-- An archive with a file that would stand above the directory.
extract_zip-stays_inside_example :
    AreInside "/srv/a"
      (extract_zip "/srv/a" (file "run" ∷ file "../../etc/run" ∷ []) start_state).1.world
extract_zip-stays_inside_example =
    extract_zip-stays_inside (AreInside "/srv/a") "/srv/a"
      (λ name body w inside before. ((name, refl, inside), before))
      (λ name w inside before. ((name, refl, inside), before))
      (file "run" ∷ file "../../etc/run" ∷ []) start_state tt

-- The path is the directory joined with a name without two dots.
abbrev IsJoined : String → String → Type 0
IsJoined dir path = (name : String) × (contains name ".." ≡ false) × (path ≡ join (dir ∷ name ∷ []))

abbrev AreJoined : String → List String → Type 0
AreJoined dir [] = Unit
AreJoined dir (path ∷ paths) = IsJoined dir path × AreJoined dir paths

extract_tar-stays_inside_example :
    AreJoined "/srv/a"
      (extract_tar "/srv/a" (file "run" ∷ file "../run" ∷ []) true start_state).1.world
extract_tar-stays_inside_example =
    extract_tar-stays_inside (AreJoined "/srv/a") "/srv/a"
      (λ name body w plain before. ((name, plain, refl), before))
      (λ name w plain before. ((name, plain, refl), before)) (file "run" ∷ file "../run" ∷ []) true
      start_state tt

abbrev twice : PCheck
twice = record { max_retry_count = 2; chain = true }

Rounds-IsBounded_example :
    IsBounded twice 1 start_state
      (monitor_round twice "xdpingress" (chains xdp_ingress) start_state).1
Rounds-IsBounded_example =
    Rounds-IsBounded twice 1 start_state
      (monitor_round twice "xdpingress" (chains xdp_ingress) start_state).1 (omega arith)
      (next_round start_round "xdpingress" (chains xdp_ingress))
