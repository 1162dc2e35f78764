-- ===== src/Ebpf.antt =====
-- wg-ondemand-ebpf/src/main.rs: the classifier on the egress of the monitored interface.
pub mod Slots
pub mod Classifier
use wg_ondemand.Base.{
  ℕ, zero, suc, ◌+◌, ◌*◌, ◌/◌, ◌%◌, ◌^◌, bit_and, Bool, true, false, ◌&&◌, Option, none, some, List,
  [], ◌∷◌, ◌++◌, ◌==◌, if◌then◌else◌,
}
use mathlib.Core.Option
use wg_ondemand.Types.{TrafficEvent}
use wg_ondemand.Types.Wire.{write_event}
use Slots.{SubnetMap}

-- `EMPTY_SENTINEL`, the same constant in both programs.
abbrev pub empty_sentinel : ℕ
empty_sentinel = 0xffffffff

-- The test of one slot: an empty slot matches nothing.
abbrev pub slot_matches : ℕ → ℕ × ℕ → Bool
slot_matches ip (network, mask) =
    if network == empty_sentinel && mask == empty_sentinel
    then false
    else bit_and ip mask == network

module _ (S : SubnetMap) where
  -- The slots from `i` on, as many as `rounds`.
  unfoldable pub scan_slots : S.Map → ℕ → ℕ → ℕ → Bool
  scan_slots map ip i zero = false
  scan_slots map ip i (suc rounds) =
      let rest = scan_slots map ip (suc i) rounds in
      elim (S.get map i) [ none ↦ rest | some slot ↦ if slot_matches ip slot then true else rest ]

  -- `is_target_subnet`: `for i in 0..16`
  unfoldable pub is_target_subnet : S.Map → ℕ → Bool
  is_target_subnet map ip = scan_slots map ip 0 16

-- `u32::from_be` and `u16::from_be` on a little-endian machine.
unfoldable pub from_be32 : ℕ → ℕ
from_be32 x =
    (x % 256) * 2 ^ 24 + (x / 2 ^ 8 % 256) * 2 ^ 16 + (x / 2 ^ 16 % 256) * 2 ^ 8 + x / 2 ^ 24

unfoldable pub from_be16 : ℕ → ℕ
from_be16 x = (x % 256) * 2 ^ 8 + x / 2 ^ 8

-- The arms of the `match` on the IP protocol.
pub data IpProto : Type 0 where
  tcp udp other : IpProto

-- What the program takes from `aya_ebpf` and `network_types`: the packet, its headers as the loads
-- return them, and the ring buffer's answer to `reserve`.
pub record Kernel : Type 1 where
  pub Ctx : Type 0
  pub EthHdr : Type 0
  pub Ipv4Hdr : Type 0
  pub tc_act_ok : ℕ
  pub eth_len : ℕ
  pub ipv4_len : ℕ
  pub load_eth : Ctx → ℕ → Option EthHdr
  pub load_ipv4 : Ctx → ℕ → Option Ipv4Hdr
  pub load_tcp_dest : Ctx → ℕ → Option ℕ
  pub load_udp_dest : Ctx → ℕ → Option ℕ
  pub is_ipv4 : EthHdr → Bool
  pub dst_addr : Ipv4Hdr → ℕ
  pub proto : Ipv4Hdr → IpProto
  pub proto_number : Ipv4Hdr → ℕ
  pub has_room : List (List ℕ) → Bool

module _ (K : Kernel) where
  -- The destination port, or `none` if the transport header cannot be loaded.
  unfoldable pub load_port : K.Ctx → K.Ipv4Hdr → Option ℕ
  load_port ctx hdr = elim (K.proto hdr) [
    | tcp ↦ Option.map from_be16 (K.load_tcp_dest ctx (K.eth_len + K.ipv4_len))
    | udp ↦ Option.map from_be16 (K.load_udp_dest ctx (K.eth_len + K.ipv4_len))
    | other ↦ some 0
  ]

  pub event_of : K.Ipv4Hdr → ℕ → ℕ → TrafficEvent
  event_of hdr port now = record {
    timestamp = now;
    dest_ip = from_be32 (K.dst_addr hdr);
    dest_port = port;
    protocol = K.proto_number hdr;
    padding = 0;
  }

  -- `EVENTS.reserve`, and `submit` if there is room; the ring holds the entries not yet read.
  pub emit : TrafficEvent → List (List ℕ) → List (List ℕ)
  emit event ring = if K.has_room ring then ring ++ write_event event ∷ [] else ring

module _ (K : Kernel) (S : SubnetMap) (subnets : S.Map) where
  -- The part behind the IPv4 header. `none` is `Err(())`.
  ipv4_packet : K.Ctx → K.Ipv4Hdr → ℕ → List (List ℕ) → Option ℕ × List (List ℕ)
  ipv4_packet ctx hdr now ring =
      if is_target_subnet S subnets (from_be32 (K.dst_addr hdr))
      then elim (load_port K ctx hdr) [
        | none ↦ (none, ring)
        | some port ↦ (some K.tc_act_ok, emit K (event_of K hdr port now) ring)
      ]
      else (some K.tc_act_ok, ring)

  unfoldable pub try_wg_ondemand_tc : K.Ctx → ℕ → List (List ℕ) → Option ℕ × List (List ℕ)
  unfolding ipv4_packet emit event_of load_port
  try_wg_ondemand_tc ctx now ring = elim (K.load_eth ctx 0) [
    | none ↦ (none, ring)
    | some eth ↦
        if K.is_ipv4 eth
        then elim (K.load_ipv4 ctx K.eth_len) [
          | none ↦ (none, ring)
          | some hdr ↦ ipv4_packet ctx hdr now ring
        ]
        else (some K.tc_act_ok, ring)
  ]

  unfoldable pub wg_ondemand_tc : K.Ctx → ℕ → List (List ℕ) → ℕ × List (List ℕ)
  unfolding try_wg_ondemand_tc
  wg_ondemand_tc ctx now ring =
      let (ret, ring') = try_wg_ondemand_tc ctx now ring in
      (elim ret [ some r ↦ r | none ↦ K.tc_act_ok ], ring')
