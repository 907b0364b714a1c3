-- ===== src/Kf/State.antt =====
-- What kf keeps: the BPF structs by their pointers, the chains of NFConfigs, and the metrics.
use l3afd.Prelude.{ℕ, ℤ, Bool, String, Option, List, Map}
use l3afd.Models.{BpfProgram}
use l3afd.Config.{Config}
use l3afd.Os.{Os, MapType}
use l3afd.Stats.{Stats}
use l3afd.Exec.{Exec}
use l3afd.Kf.ElementList.{Ref, Chain}

-- exec.Cmd: `process` is nil until the command was started.
pub record Cmd : Type 0 where
  pub path : String
  pub args : List String
  pub process : Option ℕ

-- The struct BPFMap of kf/bpfmap.go.
pub record BpfMap : Type 0 where
  pub name : String
  pub map_id : ℕ
  pub type : MapType
  pub bpf_prog : Option Ref

-- A value of the ring: nil, a float64 or an int64.
pub data Sample : Type 0 where
  unset : Sample
  float64 : ℤ → Sample
  int64 : ℤ → Sample

-- The struct MetricsBPFMap. The ring is the list of its values from the current position on.
pub record MetricsBpfMap : Type 0 where
  pub bpf_map : BpfMap
  pub key : ℤ
  pub values : List Sample
  pub aggregator : String
  pub last_value : ℤ

-- The struct BPF of kf/bpf.go. `done` says whether the channel was made.
pub record Bpf : Type 0 where
  pub program : BpfProgram
  pub cmd : Option Cmd
  pub file_path : String
  pub restart_count : ℕ
  pub log_dir : String
  pub prev_map_name : String
  pub prog_id : ℤ
  pub bpf_maps : Map BpfMap
  pub metrics_bpf_maps : Map MetricsBpfMap
  -- `has_maps` is false where the two maps are nil: nothing can be put into them.
  pub has_maps : Bool
  -- The channel Done: nil, or made, with the number of receives on it that wait for a value.
  pub done : Option ℕ
  pub data_center : String

pub data Direction : Type 0 where
  xdp_ingress ingress egress : Direction

-- The struct NFConfigs: `chains xdp_ingress`, `chains ingress` and `chains egress` are
-- IngressXDPBpfs, IngressTCBpfs and EgressTCBpfs. A list pointer may be nil.
pub record NfConfigs : Type 0 where
  pub host_name : String
  pub host_interfaces : Map Bool
  pub chains : Direction → Map (Option Chain)
  pub host_config : Config
  pub ifaces : Map String

pub record State (os : Os) : Type 0 where
  pub world : os.World
  pub bpfs : Ref → Bpf
  pub next_ref : Ref
  pub configs : NfConfigs
  pub stats : Stats

-- A statement of kf.
abbrev pub Kf : ⦃os : Os⦄ → Type 0 → Type 0
Kf ⦃os⦄ A = Exec (State os) A
