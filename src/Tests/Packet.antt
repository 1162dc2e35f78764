-- ===== src/Tests/Packet.antt =====
-- A packet, and the subnet that it goes to.
use wg_ondemand.Base.{◌≡◌, true, none, some, arith, ok}
use wg_ondemand.Base.Ipv4.{from_be_bytes}
use wg_ondemand.Config.Cidr.{network as network_of, mask, show_cidr, parse_cidr-show_cidr}
use wg_ondemand.Config.{parse_cidr}
use wg_ondemand.Ebpf.{Kernel, tcp}
use wg_ondemand.Loader.Agreement.{NotBroadcast}
use wg_ondemand.Tests.World.{lan}

-- A TCP packet to 10.1.0.9, port 443, in network byte order, and a ring that has room.
abbrev pub one_packet : Kernel
one_packet = record {
  Ctx = Unit;
  EthHdr = Unit;
  Ipv4Hdr = Unit;
  tc_act_ok = 0;
  eth_len = 14;
  ipv4_len = 20;
  load_eth = λ _ _. some tt;
  load_ipv4 = λ _ _. some tt;
  load_tcp_dest = λ _ _. some 0xbb01;
  load_udp_dest = λ _ _. none;
  is_ipv4 = λ _. true;
  dst_addr = λ _. 0x0900010a;
  proto = λ _. tcp;
  proto_number = λ _. 6;
  has_room = λ _. true;
}

pub lan_read : parse_cidr (show_cidr lan) ≡ ok (network_of lan, mask lan)
lan_read = parse_cidr-show_cidr lan (record { octets = ground arith; short = omega arith })

pub lan-NotBroadcast : NotBroadcast (show_cidr lan)
unfolding from_be_bytes
lan-NotBroadcast e = ground (arith, lan_read, e)
