-- ===== src/Stats.antt =====
-- stats/metrics.go: the vectors that l3afd publishes and the three functions that write to them. The
-- registry of prometheus is seen as the list of the writes that reached it, the last one first.
use l3afd.Prelude.{ℕ, ℤ, Bool, String, List, ◌∷◌, if◌then◌else◌}

pub data Vector : Type 0 where
  nf_start_count nf_stop_count nf_update_count nf_running nf_start_time nf_monitor_map : Vector

-- A float64 of a metric: a whole number, or the float that is nearest to a quotient, which is NaN for a
-- divisor of 0. Numbers of 2 ^ 53 and more, which float64 rounds, are kept exact here.
pub data Float64 : Type 0 where
  whole : ℤ → Float64
  quotient : (sum : ℤ) (count : ℕ) → Float64

pub data Write : Type 0 where
  inc : Vector → (network_function label : String) → Write
  gauge : Vector → Float64 → (network_function label : String) → Write

-- `is_set_up v` is false while the variable of the vector is nil.
pub record Stats : Type 0 where
  pub is_set_up : Vector → Bool
  pub writes : List Write

unfoldable pub incr : Vector → String → String → Stats → Stats
incr vector network_function direction s =
    if s.is_set_up vector
    then record s { writes = inc vector network_function direction ∷ s.writes }
    else s

unfoldable pub set : ℤ → Vector → String → String → Stats → Stats
set value vector network_function direction s =
    if s.is_set_up vector
    then record s { writes = gauge vector (whole value) network_function direction ∷ s.writes }
    else s

unfoldable pub set_value : Float64 → Vector → String → String → Stats → Stats
set_value value vector network_function map_name s =
    if s.is_set_up vector
    then record s { writes = gauge vector value network_function map_name ∷ s.writes }
    else s
