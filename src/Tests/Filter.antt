-- ===== src/Tests/Filter.antt =====
-- The classifier's and the loader's theorems, with an array of sixteen slots and one packet.
use wg_ondemand.Base.{ℕ, ◌≡◌, Bool, true, false, none, some, [], ◌∷◌, arith, length, ok}
use wg_ondemand.Base.Ipv4.{from_be_bytes}
use wg_ondemand.Base.Str.{codes}
use wg_ondemand.Types.{TrafficEvent}
use wg_ondemand.Types.Wire.{write_event, read_event, size_of_event, read_event-write_event}
use wg_ondemand.Config.{parse_cidr, ip_in_subnets}
use wg_ondemand.Config.Cidr.{Subnet, IsSubnet, show_cidr, parse_cidr-show_cidr}
use wg_ondemand.Ebpf.Slots.{array_map, zeroed, array_map-IsLawful}
use wg_ondemand.Ebpf.{Kernel, tcp, is_target_subnet, wg_ondemand_tc, empty_sentinel}
use wg_ondemand.Ebpf.Classifier.{worth, appended, wg_ondemand_tc_lem}
use wg_ondemand.Loader.{Aya, EbpfManager, configure}
use wg_ondemand.Loader.Agreement.{broadcast_ignored}

abbrev an_event : TrafficEvent
an_event = record {
  timestamp = 1000000;
  dest_ip = 0xc0a80105;
  dest_port = 443;
  protocol = 6;
  padding = 0;
}

read_event-write_event_example :
    (length (write_event an_event) ≡ size_of_event) × (read_event (write_event an_event) ≡ an_event)
read_event-write_event_example = read_event-write_event an_event (record {
  timestamp_u64 = omega arith;
  dest_ip_u32 = omega arith;
  dest_port_u16 = omega arith;
  protocol_u8 = omega arith;
  padding_u8 = omega arith;
})

abbrev office : Subnet
office = record { base = record { o0 = 10; o1 = 1; o2 = 0; o3 = 0 }; prefix_len = 16 }

office-IsSubnet : IsSubnet office
office-IsSubnet = record { octets = ground arith; short = omega arith }

abbrev broadcast : Subnet
broadcast = record { base = record { o0 = 255; o1 = 255; o2 = 255; o3 = 255 }; prefix_len = 32 }

broadcast_read : parse_cidr (show_cidr broadcast) ≡ ok (empty_sentinel, empty_sentinel)
unfolding from_be_bytes
broadcast_read =
    parse_cidr-show_cidr broadcast (record { octets = ground arith; short = omega arith })

broadcast_ignored_example :
    (map' : array_map.Map) × (configure array_map (show_cidr broadcast ∷ []) zeroed ≡ ok map')
    × ((ip : ℕ) → is_target_subnet array_map map' ip ≡ false)
    × (ip_in_subnets 0xffffffff (show_cidr broadcast ∷ []) ≡ ok true)
broadcast_ignored_example =
    broadcast_ignored array_map array_map-IsLawful (show_cidr broadcast) zeroed broadcast_read

-- A TCP packet to 10.1.0.9, port 443, in network byte order, and a ring that has room.
abbrev one_packet : Kernel
one_packet = record {
  Ctx = Unit;
  EthHdr = Unit;
  Ipv4Hdr = Unit;
  tc_act_ok = 0;
  eth_len = 14;
  ipv4_len = 20;
  load_eth = λ _ _. some tt;
  load_ipv4 = λ _ _. some tt;
  load_tcp_dest = λ _ _. some 0xbb01;
  load_udp_dest = λ _ _. none;
  is_ipv4 = λ _. true;
  dst_addr = λ _. 0x0900010a;
  proto = λ _. tcp;
  proto_number = λ _. 6;
  has_room = λ _. true;
}

abbrev office_slots : array_map.Map
office_slots i = some (0x0a010000, 0xffff0000)

wg_ondemand_tc_lem_example : wg_ondemand_tc one_packet array_map office_slots tt 7 [] ≡ (
  0,
  appended one_packet array_map office_slots (worth one_packet array_map office_slots tt 7) [],
)
wg_ondemand_tc_lem_example = wg_ondemand_tc_lem one_packet array_map office_slots tt 7 []

-- An object whose program can be attached; `ring` says whether it has the map of the ring buffer.
abbrev loaded : Bool → Aya array_map
loaded ring = record {
  Bpf = Unit;
  LinkId = ℕ;
  RingBuf = ℕ;
  load_bytes = some tt;
  subnets_map = λ _. some zeroed;
  has_program = λ _. true;
  load_program = λ _. some tt;
  attach_to = λ _ _. (tt, some 1);
  detach_link = λ _ _. (tt, true);
  take_events = λ _. (tt, elim ring [ true ↦ some 0 | false ↦ none ]);
}

abbrev fresh : (ring : Bool) → EbpfManager (loaded ring)
fresh ring = record { ebpf = tt; interface = codes "wlan0"; link_id = none; ringbuf = none }
