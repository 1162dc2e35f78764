-- ===== src/Ebpf/Classifier.antt =====
-- What the classifier does with a packet.
use mathlib.Core.Option
use wg_ondemand.Base.{
  ℕ, ◌^◌, ◌<◌, ◌≡◌, Option, none, some, List, [], ◌∷◌, ◌++◌, arith, if◌then◌else◌,
}
use wg_ondemand.Types.{TrafficEvent}
use wg_ondemand.Types.Wire.{write_event}
use wg_ondemand.Ebpf.Slots.{SubnetMap}
use wg_ondemand.Ebpf.{Kernel, is_target_subnet, from_be32, load_port, event_of, wg_ondemand_tc}

pub from_be32_twice : (x : ℕ) → x < 2 ^ 32 → (from_be32 x < 2 ^ 32) × (from_be32 (from_be32 x) ≡ x)
unfolding from_be32
from_be32_twice x h = (omega arith, omega arith)

module _ (K : Kernel) (S : SubnetMap) (subnets : S.Map) where
  -- The packet's IPv4 header, if the program gets that far.
  abbrev pub header : K.Ctx → Option K.Ipv4Hdr
  header ctx = elim (K.load_eth ctx 0) [
    | none ↦ none
    | some eth ↦ if K.is_ipv4 eth then K.load_ipv4 ctx K.eth_len else none
  ]

  -- The event that the packet is worth: its destination lies in a configured subnet and its ports
  -- can be read.
  abbrev pub worth : K.Ctx → ℕ → Option TrafficEvent
  worth ctx now = elim (header ctx) [
    | none ↦ none
    | some hdr ↦
        if is_target_subnet S subnets (from_be32 (K.dst_addr hdr))
        then Option.map (λ port. event_of K hdr port now) (load_port K ctx hdr)
        else none
  ]

  abbrev pub appended : Option TrafficEvent → List (List ℕ) → List (List ℕ)
  appended none ring = ring
  appended (some e) ring = if K.has_room ring then ring ++ write_event e ∷ [] else ring

  -- Every packet passes; the ring gains the bytes of the packet's event, if it is worth one and
  -- there is room, and nothing else.
  pub wg_ondemand_tc_lem :
      (ctx : K.Ctx) (now : ℕ) (ring : List (List ℕ))
      → wg_ondemand_tc K S subnets ctx now ring ≡ (K.tc_act_ok, appended (worth ctx now) ring)
  unfolding wg_ondemand_tc
  wg_ondemand_tc_lem ctx now ring = ground arith
