-- ===== src/Sys.antt =====
-- Statements of the daemon that have no state of their own: they only call the system.
use l3afd.Os.{Os}
use l3afd.Exec.{Exec, ok}

abbrev pub Sys : ⦃os : Os⦄ → Type 0 → Type 0
Sys ⦃os⦄ A = Exec os.World A

module _ ⦃os : Os⦄ where
  unfoldable pub ask : {A : Type 0} → (os.World → A × os.World) → Sys A
  ask f w = let (a, w') = f w in (ok a, w')
