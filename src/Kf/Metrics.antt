-- ===== src/Kf/Metrics.antt =====
-- Metrics of maps: GetValue, MaxValue and AvgValue of kf/bpfmap.go, AddMetricsBPFMap and MonitorMaps of
-- kf/bpf.go. A ring is the list of its values from the current position on; the nil ring is the empty
-- list. A float64 is an exact integer, or a quotient of integers, as it is below 2 ^ 53.
pub mod Window
pub mod Largest
pub mod Rates
pub mod Averages
use Prim.Native.String.{◌++◌}
use l3afd.Prelude.{
  ℕ, zero, suc, ◌+◌, ℤ, pos, negsuc, ◌+ℤ◌, abs_diff, leb_ℤ, eq_ℤ, not, Bool, true, false, ◌&&◌,
  String, Option, none, some, List, [], ◌∷◌, Map, lookup, insert, is_some, ◌==◌, if◌then◌else◌,
}
use mathlib.Core.List
use l3afd.Prelude.Decimal.{print_int}
use l3afd.Models.{MetricsMap, disabled}
use l3afd.Os.{Os, other_type}
use l3afd.Stats.{Float64, whole, quotient, nf_monitor_map, set_value}
use l3afd.Exec.{on_option, pure, panics, deref, try, attempt, wrap, ◌>>=◌, ◌>>◌}
use l3afd.Kf.ElementList.{Ref, Chain}
use l3afd.Kf.State.{BpfMap, Sample, unset, float64, int64, MetricsBpfMap, Kf}
use l3afd.Kf.Access.{call, read, write, publish}
use l3afd.Kf.ConfigMaps.{assert_maps, get_bpf_map}

-- ring.New: no ring for a length that is not positive.
unfoldable pub unset_values : ℕ → List Sample
unset_values zero = []
unset_values (suc n) = unset ∷ unset_values n

unfoldable pub new_ring : ℤ → List Sample
unfolding unset_values
new_ring (pos n) = unset_values n
new_ring (negsuc n) = []

-- Next of a ring that is not nil.
unfoldable pub next_value : List Sample → List Sample
next_value [] = []
next_value (x ∷ xs) = List.◌++◌ xs (x ∷ [])

-- `b.Values.Next()`, and a nil pointer for the nil ring
abbrev pub next_of : List Sample → Option (List Sample)
next_of [] = none
next_of (x ∷ xs) = some (next_value (x ∷ xs))

unfoldable pub set_current : Sample → List Sample → List Sample
set_current v [] = []
set_current v (x ∷ xs) = v ∷ xs

-- Assertions `.(float64)` panic at an int64; `none` is that panic.
unfoldable pub max_from : ℤ → List Sample → Option ℤ
max_from max [] = some max
max_from max (unset ∷ xs) = max_from max xs
max_from max (float64 val ∷ xs) = max_from (if leb_ℤ val max then max else val) xs
max_from max (int64 val ∷ xs) = none

unfoldable pub max_value : List Sample → Option ℤ
unfolding max_from
max_value values = max_from (pos 0) values

unfoldable pub sum_from : ℤ → ℕ → List Sample → Option Float64
sum_from sum n [] = some (quotient sum n)
sum_from sum n (unset ∷ xs) = sum_from sum n xs
sum_from sum n (float64 val ∷ xs) = sum_from (sum +ℤ val) (n + 1) xs
sum_from sum n (int64 val ∷ xs) = none

-- The Next of a nil ring panics.
unfoldable pub avg_value : List Sample → Option Float64
unfolding sum_from next_value
avg_value [] = none
avg_value (x ∷ xs) = sum_from (pos 0) 0 (next_value (x ∷ xs))

abbrev pub empty_metrics_map : MetricsBpfMap
empty_metrics_map = record {
  bpf_map = record { name = ""; map_id = 0; type = other_type; bpf_prog = none };
  key = pos 0;
  values = [];
  aggregator = "";
  last_value = pos 0;
}

-- The key of an element in MetricsBpfMaps, and the label of its metric.
abbrev pub map_key_of : MetricsMap → String
map_key_of element = element.name ++ (print_int element.key ++ element.aggregator)

abbrev pub metric_name_of : MetricsMap → String
metric_name_of element =
    element.name ++ ("_" ++ (print_int element.key ++ ("_" ++ element.aggregator)))

module _ ⦃os : Os⦄ where
  -- `b.MetricsBpfMaps[mapKey]`, whose pointer is used without a test
  unfoldable pub metrics_map : Ref → String → Kf MetricsBpfMap
  metrics_map b map_key = do bpf ← read b; deref (lookup map_key bpf.metrics_bpf_maps)

  unfoldable pub set_metrics_map : Ref → String → MetricsBpfMap → Kf (Unit {0})
  set_metrics_map b map_key m =
      write b (λ bpf. record bpf { metrics_bpf_maps = insert map_key m bpf.metrics_bpf_maps })

  -- The map's ID is stale. Where it is not found again, the log line uses the nil result.
  unfoldable pub look_up_again : Ref → String → MetricsBpfMap → Kf (Option ℕ)
  unfolding set_metrics_map
  look_up_again b map_key m = do
    bpf_prog ← deref m.bpf_map.bpf_prog
    found ← attempt (get_bpf_map bpf_prog m.bpf_map.name)
    tmp_bpf ← deref found
    set_metrics_map b map_key
        (record m { bpf_map = record (m.bpf_map) { map_id = tmp_bpf.map_id } })
    call (os.map_from_id tmp_bpf.map_id)

  -- The position moves on, and the change since the last value is stored there.
  unfoldable pub store_rate : Ref → String → MetricsBpfMap → ℤ → Kf Float64
  unfolding set_metrics_map
  store_rate b map_key m value = do
    current ← deref (next_of m.values)
    let values = set_current (float64 (abs_diff value m.last_value)) current
    set_metrics_map b map_key (record m { values = values; last_value = value })
    max ← deref (max_value values)
    pure (whole max)

  -- The value is stored as an int64, which AvgValue then takes for a float64.
  unfoldable pub store_average : Ref → String → MetricsBpfMap → ℤ → Kf Float64
  unfolding set_metrics_map
  store_average b map_key m value = do
    values ← deref (next_of (set_current (int64 value) m.values))
    set_metrics_map b map_key (record m { values = values })
    deref (avg_value values)

  unfoldable pub aggregate : Ref → String → MetricsBpfMap → ℤ → Kf Float64
  unfolding store_rate store_average
  aggregate b map_key m value =
      if m.aggregator == "scalar"
      then pure (whole value)
      else if m.aggregator == "max-rate"
      then store_rate b map_key m value
      else if m.aggregator == "avg"
      then store_average b map_key m value
      else pure (whole (pos 0))

  unfoldable pub get_value : Ref → String → Kf Float64
  unfolding metrics_map look_up_again aggregate on_option
  get_value b map_key = do
    m ← metrics_map b map_key
    opened ← call (os.map_from_id m.bpf_map.map_id)
    ebpf_map ← (if is_some opened then pure opened else look_up_again b map_key m)
    on_option ebpf_map (pure (whole (pos 0))) λ fd. do
      m ← metrics_map b map_key
      found ← call (os.map_lookup fd m.key)
      on_option found (pure (whole (pos 0))) (λ value. aggregate b map_key m value)

  unfoldable pub add_metrics_bpf_map : Ref → String → String → ℤ → ℤ → Kf (Unit {0})
  unfolding set_metrics_map assert_maps
  add_metrics_bpf_map b map_name aggregator key samples_length = do
    bpf_map ← get_bpf_map b map_name
    assert_maps b
    set_metrics_map b (map_name ++ (print_int key ++ aggregator)) (record {
      bpf_map = bpf_map;
      key = key;
      values = new_ring samples_length;
      aggregator = aggregator;
      last_value = pos 0;
    })

  unfoldable pub monitor_each : Ref → ℤ → List MetricsMap → Kf (Unit {0})
  unfolding add_metrics_bpf_map get_value
  monitor_each b intervals [] = pure tt
  monitor_each b intervals (element ∷ elements) = do
    bpf ← read b
    if is_some (lookup (map_key_of element) bpf.metrics_bpf_maps)
        then pure tt
        else wrap "not able to fetch map"
            (add_metrics_bpf_map b element.name element.aggregator element.key intervals)
    value ← get_value b (map_key_of element)
    publish (set_value value nf_monitor_map bpf.program.name (metric_name_of element))
    monitor_each b intervals elements

  abbrev pub elements_of : Option (List MetricsMap) → List MetricsMap
  elements_of none = []
  elements_of (some elements) = elements

  unfoldable pub monitor_maps : Ref → ℤ → Kf (Unit {0})
  unfolding monitor_each
  monitor_maps b intervals = do
    bpf ← read b
    monitor_each b intervals (elements_of bpf.program.monitor_maps)
