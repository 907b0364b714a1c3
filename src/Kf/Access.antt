-- ===== src/Kf/Access.antt =====
-- Reading and writing the state of kf: calls of the system, fields behind pointers, chains.
use l3afd.Prelude.{
  suc, Bool, true, false, String, Option, none, some, Map, lookup, insert, nat_eq, if◌then◌else◌,
  ◌==◌,
}
use l3afd.Models.{xdp_ingress_type, ingress_type, egress_type}
use l3afd.Os.{Os}
use l3afd.Stats.{Stats}
use l3afd.Exec.{ok}
use l3afd.Kf.ElementList.{Ref, Chain}
use l3afd.Kf.State.{Bpf, Direction, xdp_ingress, ingress, egress, NfConfigs, Kf}

-- The `switch direction` of the source.
unfoldable pub direction_of : String → Option Direction
direction_of d =
    if d == xdp_ingress_type
    then some xdp_ingress
    else if d == ingress_type
    then some ingress
    else if d == egress_type
    then some egress
    else none

abbrev pub same_direction : Direction → Direction → Bool
same_direction xdp_ingress xdp_ingress = true
same_direction ingress ingress = true
same_direction egress egress = true
same_direction _ _ = false

-- `m[iface]` of a map of list pointers: a missing key reads as nil.
abbrev pub chain_in : Map (Option Chain) → String → Option Chain
chain_in m iface = elim (lookup iface m) [ none ↦ none | some l ↦ l ]

abbrev pub chain_at : NfConfigs → Direction → String → Option Chain
chain_at c d iface = chain_in (c.chains d) iface

abbrev pub with_chain : NfConfigs → Direction → String → Option Chain → NfConfigs
with_chain c d iface l = record c {
  chains = λ d'. if same_direction d d' then insert iface l (c.chains d') else c.chains d';
}

abbrev pub write_bpf : (Ref → Bpf) → Ref → Bpf → Ref → Bpf
write_bpf h r b q = if nat_eq r q then b else h q

module _ ⦃os : Os⦄ where
  -- One call of the system.
  unfoldable pub call : {A : Type 0} → (os.World → A × os.World) → Kf A
  call f s = let (a, w) = f s.world in (ok a, record s { world = w })

  unfoldable pub sleep : Kf (Unit {0})
  sleep s = (ok tt, record s { world = os.sleep s.world })

  unfoldable pub read : Ref → Kf Bpf
  read r s = (ok (s.bpfs r), s)

  unfoldable pub write : Ref → (Bpf → Bpf) → Kf (Unit {0})
  write r f s = (ok tt, record s { bpfs = write_bpf s.bpfs r (f (s.bpfs r)) })

  unfoldable pub alloc : Bpf → Kf Ref
  alloc b s =
      (ok s.next_ref, record s { bpfs = write_bpf s.bpfs s.next_ref b; next_ref = suc s.next_ref })

  unfoldable pub get_chain : Direction → String → Kf (Option Chain)
  get_chain d iface s = (ok (chain_at s.configs d iface), s)

  unfoldable pub set_chain : Direction → String → Option Chain → Kf (Unit {0})
  set_chain d iface l s = (ok tt, record s { configs = with_chain s.configs d iface l })

  unfoldable pub publish : (Stats → Stats) → Kf (Unit {0})
  publish f s = (ok tt, record s { stats = f s.stats })
