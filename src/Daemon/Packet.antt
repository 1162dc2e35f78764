-- ===== src/Daemon/Packet.antt =====
-- From a packet on the monitored interface to the tunnel's command.
use wg_ondemand.Base.{
  ℕ, ◌≤◌, ◌<◌, ◌^◌, ◌≡◌, refl, ◌∙◌, true, some, List, [], ◌∷◌, Text, length, is_some, All, Any, ok,
  arith, Result-cases, inl, inr, false, Error, err, ◌⊎◌,
}
use wg_ondemand.Types.{TrafficEvent, monitoring, activating, active}
use wg_ondemand.Types.Wire.{write_event}
use wg_ondemand.Config.Subnets.{IsCidr, Covers, ip_in_subnets_exact}
use wg_ondemand.Ebpf.Slots.{SubnetMap, IsLawful}
use wg_ondemand.Ebpf.{Kernel, is_target_subnet, from_be32, load_port, event_of, wg_ondemand_tc}
use wg_ondemand.Ebpf.Classifier.{header, wg_ondemand_tc_lem}
use wg_ondemand.Loader.{configure, poll_events, is_attached}
use wg_ondemand.Loader.Link.{detach_forgets}
use wg_ondemand.Routes.{remove_routes}
use wg_ondemand.Loader.Agreement.{NotBroadcast, configured_agrees}
use wg_ondemand.Controller.{bring_up}
use wg_ondemand.State.{traffic_detected, handle_command}
use wg_ondemand.StateFile.{write_state}
use wg_ondemand.Daemon.{
  World, Daemon, Outcome, running, blocked, and_then, on_activate, on_detach, handle, perform,
  on_command, on_ebpf_tick, poll_entries, send, write_file,
}
use wg_ondemand.Daemon.Loop.{Event, ebpf_tick, command, step, steps, daemon_of}

write_event-length : (e : TrafficEvent) → length (write_event e) ≡ 16
unfolding write_event
write_event-length e = refl

module _ (S : SubnetMap) (L : IsLawful S) where
  -- A configured map matches an address of a subnet.
  covered_matches :
      (cs : List Text) (fresh map : S.Map) (ip : ℕ)
      → configure S cs fresh ≡ ok map
      → All IsCidr cs
      → All NotBroadcast cs
      → length cs ≤ 16
      → ip < 2 ^ 32
      → Any (Covers ip) cs
      → is_target_subnet S map ip ≡ true
  covered_matches cs fresh map ip loaded accepted plain few short covered =
      let agrees = configured_agrees S L cs fresh map accepted plain few loaded ip in
      let (found, runs, meaning) = ip_in_subnets_exact ip cs short accepted in
      let hit : found ≡ true = meaning.1 covered in ground (arith, agrees, runs, hit)

  -- The packet's event goes into an empty ring.
  packet_seen :
      (K : Kernel) (map : S.Map) (ctx : K.Ctx) (hdr : K.Ipv4Hdr) (port now : ℕ)
      → header K S map ctx ≡ some hdr
      → load_port K ctx hdr ≡ some port
      → K.has_room [] ≡ true
      → is_target_subnet S map (from_be32 (K.dst_addr hdr)) ≡ true
      → wg_ondemand_tc K S map ctx now []
        ≡ (K.tc_act_ok, write_event (event_of K hdr port now) ∷ [])
  packet_seen K map ctx hdr port now head loads room hit =
      wg_ondemand_tc_lem K S map ctx now [] ∙ ground (arith, head, loads, room, hit)

module _ {W : World} where
  abbrev holding : Daemon W → Daemon W
  holding d = record d { state_queue = traffic_detected ∷ [] }

  polled :
      (entry : List ℕ) (d : Daemon W)
      → length entry ≡ 16
      → d.state_queue ≡ []
      → is_some (poll_events W.aya d.ebpf_manager) ≡ true
      → on_ebpf_tick (entry ∷ []) d ≡ running (holding d)
  unfolding on_ebpf_tick poll_entries send
  polled entry d size idle ring = ground (arith, size, idle, ring)

  -- The tunnel's command, whatever becomes of it, and the state file.
  activated :
      (t : ℕ) (d : Daemon W)
      → d.state_manager.state ≡ monitoring
      → let d' = daemon_of (on_command t (holding d)) in
        let s = (bring_up W.os d.wg_controller d.sys).0 in
        (d'.state_manager.state ≡ activating)
        × (d'.sys ≡ (write_state W.files activating d.current_ssid s).0)
  unfolding on_command handle handle_command perform on_activate write_file send
  activated t d watching = elim (Result-cases (bring_up W.os d.wg_controller d.sys).1) [
    | inl (_, e) ↦ ground (arith, watching, e)
    | inr (_, e) ↦ ground (arith, watching, e)
  ]

  pub and_then_end : (o : Outcome W) → daemon_of (and_then o (steps [])) ≡ daemon_of o
  unfolding steps
  and_then_end (running d) = refl
  and_then_end (blocked d) = refl

  -- The command after it: the machine hears of the tunnel, or nothing if the tunnel did not come up.
  settled :
      (t t' : ℕ) (d : Daemon W)
      → d.state_manager.state ≡ monitoring
      → let d' = daemon_of (steps (command t ∷ command t' ∷ []) (holding d)) in
        let up = (bring_up W.os d.wg_controller d.sys).1 in
        ((e : Error) × (up ≡ err e) × (d'.state_manager.state ≡ activating))
        ⊎ ((up ≡ ok tt)
            × (d'.state_manager.state ≡ active)
            × (is_attached W.aya d'.ebpf_manager ≡ false)
            × (d'.route_manager.active_routes ≡ []))
  unfolding steps step on_command handle handle_command perform on_activate on_detach remove_routes
      write_file send
  settled t t' d watching = elim (Result-cases (bring_up W.os d.wg_controller d.sys).1) [
    | inr (e, fails) ↦ inl (e, fails, ground (arith, watching, fails))
    | inl (_, up) ↦
        let off = (detach_forgets W.aya d.ebpf_manager).0 in
        inr (
          up,
          ground (arith, watching, up),
          ground (arith, watching, up, off),
          ground (arith, watching, up),
        )
  ]

  polled_steps :
      (entries : List (List ℕ)) (es : List (Event W.os.State)) (d d' : Daemon W)
      → on_ebpf_tick entries d ≡ running d'
      → steps (ebpf_tick entries ∷ es) d ≡ steps es d'
  unfolding steps step
  polled_steps entries es d d' e = rw (and_then, e) refl

  one_command :
      (t : ℕ) (d : Daemon W) → daemon_of (steps (command t ∷ []) d) ≡ daemon_of (on_command t d)
  unfolding steps step
  one_command t d = and_then_end (on_command t d)

-- A monitoring daemon with an empty channel, whose classifier has been configured with accepted
-- subnets, sixteen at most and none of them the broadcast address alone. A packet with an IPv4
-- header and readable ports, whose destination lies in a subnet's block, passes; its entry in the
-- empty ring, at the next poll and the command after it, makes the daemon run the command that
-- brings the tunnel up, and leaves it Activating, with that state written to the state file. After
-- one more command it is still Activating if the tunnel did not come up, and otherwise Active, with
-- no classifier attached and no active route.
pub packet_activates :
    (W : World) (L : IsLawful W.subnet_map) (K : Kernel) (d : Daemon W)
    (fresh map : W.subnet_map.Map) (ctx : K.Ctx) (hdr : K.Ipv4Hdr) (port now t t' : ℕ)
    → configure W.subnet_map d.ranges fresh ≡ ok map
    → All IsCidr d.ranges
    → All NotBroadcast d.ranges
    → length d.ranges ≤ 16
    → header K W.subnet_map map ctx ≡ some hdr
    → load_port K ctx hdr ≡ some port
    → K.has_room [] ≡ true
    → from_be32 (K.dst_addr hdr) < 2 ^ 32
    → Any (Covers (from_be32 (K.dst_addr hdr))) d.ranges
    → d.state_manager.state ≡ monitoring
    → d.state_queue ≡ []
    → is_some (poll_events W.aya d.ebpf_manager) ≡ true
    → let (ret, ring) = wg_ondemand_tc K W.subnet_map map ctx now [] in
      let d' = daemon_of (steps (ebpf_tick ring ∷ command t ∷ []) d) in
      let d'' = daemon_of (steps (ebpf_tick ring ∷ command t ∷ command t' ∷ []) d) in
      let (s, up) = bring_up W.os d.wg_controller d.sys in
      (ret ≡ K.tc_act_ok)
      × (d'.state_manager.state ≡ activating)
      × (d'.sys ≡ (write_state W.files activating d.current_ssid s).0)
      × (((e : Error) × (up ≡ err e) × (d''.state_manager.state ≡ activating))
          ⊎ ((up ≡ ok tt)
              × (d''.state_manager.state ≡ active)
              × (is_attached W.aya d''.ebpf_manager ≡ false)
              × (d''.route_manager.active_routes ≡ [])))
packet_activates W L K d fresh map ctx hdr port now t t' loaded accepted plain few head loads room
      short covered watching idle ring =
    let hit =
      covered_matches W.subnet_map L d.ranges fresh map (from_be32 (K.dst_addr hdr)) loaded accepted
        plain few short covered in
    let seen = packet_seen W.subnet_map L K map ctx hdr port now head loads room hit in
    let entry = write_event (event_of K hdr port now) in
    let poll = polled entry d (write_event-length (event_of K hdr port now)) idle ring in
    let first = polled_steps (entry ∷ []) (command t ∷ []) d (holding d) poll in
    let both = polled_steps (entry ∷ []) (command t ∷ command t' ∷ []) d (holding d) poll in
    let done = activated t d watching in
    rw (seen, first, both, one_command t (holding d))
      (refl, done.0, done.1, settled t t' d watching)
