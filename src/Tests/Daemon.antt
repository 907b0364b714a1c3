-- ===== src/Tests/Daemon.antt =====
-- The properties of the configuration file, of the metrics and of maps at concrete inputs.
use l3afd.Prelude.{
  ◌≡◌, refl, pos, some, none, [], ◌∷◌, lookup, if◌then◌else◌, ◌==◌, ◌^◌, ◌+◌, ◌<◌, ℕ, ltb, arith,
}
use l3afd.Prelude.Text.{trim_space}
use l3afd.Config.{Config}
use l3afd.Config.Loader.{Reader, ◌>>=◌}
use l3afd.Config.Reading.{read_config}
use l3afd.Config.Reading.Settings.{IsRead, read_config-IsRead}
use l3afd.Os.{Os, array}
use l3afd.Stats.{whole}
use l3afd.Exec.{Result, ok, err, panic, blocked}
use l3afd.Exec.Answers.{Answers}
use l3afd.Kf.ElementList.{Ref}
use l3afd.Kf.State.{Bpf, State, MetricsBpfMap}
use l3afd.Kf.ConfigMaps.{get_bpf_map}
use l3afd.Kf.ConfigMaps.Search.{get_bpf_map-Answers}
use l3afd.Kf.Metrics.{new_ring, store_rate}
use l3afd.Kf.Metrics.Window.{push_all}
use l3afd.Kf.Metrics.Rates.{store_rate-window}
use l3afd.Tests.World.{willing_os, start_state, conf, running, limiter}
use l3afd.Models.{xdp_type}

-- A file in which every field has its own name or a number as its value, and no version of TLS.
abbrev pub full_file : Reader
full_file = record {
  string_at = λ group field. if group == "mTLS" then none else some field;
  bool_at = λ group field. none;
  int_at = λ group field. some (pos 5);
  parse_duration = λ text. some (pos 30);
  parse_url = λ text. some text;
  read_csv = λ text. some (text ∷ []);
}

abbrev pub config_of : Result Config → Config
config_of (ok c) = c
config_of (err e) = conf
config_of panic = conf
config_of blocked = conf

pub file_read : read_config full_file ≡ ok (config_of (read_config full_file))
unfolding read_config ◌>>=◌ trim_space
file_read = refl

read_config-IsRead_example : IsRead full_file (config_of (read_config full_file))
read_config-IsRead_example =
    read_config-IsRead full_file (config_of (read_config full_file)) file_read

-- Three places, and the rates 4 and 2.
abbrev rate_metric : MetricsBpfMap
rate_metric = record {
  bpf_map = record { name = "m"; map_id = 1; type = array; bpf_prog = some 1 };
  key = pos 0;
  values = push_all (new_ring (pos 3)) (pos 4 ∷ pos 2 ∷ []);
  aggregator = "max-rate";
  last_value = pos 10;
}

store_rate-window_example :
    ((store_rate 1 "m0max-rate" rate_metric (pos 17) start_state).0 ≡ ok (whole (pos 7)))
    × (lookup "m0max-rate"
          ((store_rate 1 "m0max-rate" rate_metric (pos 17) start_state).1.bpfs 1).metrics_bpf_maps
        ≡ some (record rate_metric {
          values = push_all (new_ring (pos 3)) (pos 4 ∷ pos 2 ∷ pos 7 ∷ []);
          last_value = pos 17;
        }))
store_rate-window_example =
    store_rate-window start_state 1 "m0max-rate" rate_metric 2 (pos 4 ∷ pos 2 ∷ []) (pos 17) refl

-- A kernel with the maps 1, 2 and 3, and a program that attaches to XDP.
abbrev three_maps : Os
three_maps = record willing_os {
  map_next_id = λ id w. (if ltb id 3 then some (id + 1) else none, w);
}

abbrev xdp_bpfs : Ref → Bpf
xdp_bpfs b = running (record limiter { prog_type = xdp_type }) ""

abbrev xdp_state : State three_maps
xdp_state = record {
  world = [];
  bpfs = xdp_bpfs;
  next_ref = 3;
  configs = start_state.configs;
  stats = start_state.stats;
}

rising : (i j : ℕ) → (if ltb i 3 then some (i + 1) else none) ≡ some j → (i < j) × (j < 2 ^ 32)
rising i j found = ground (arith, found)

get_bpf_map-Answers_example : Answers (get_bpf_map ⦃os = three_maps⦄ 1 "limiter_map" xdp_state).0
get_bpf_map-Answers_example =
    get_bpf_map-Answers ⦃os = three_maps⦄ 1 "limiter_map" xdp_state
      (λ i j w found. rising i j found)
