-- ===== src/Daemon/First.antt =====
-- From the start on a monitored network to an active tunnel: the first packet.
use wg_ondemand.Base.{
  ℕ, Error, ◌^◌, ◌<◌, ◌≡◌, refl, ap, sym, ◌∙◌, ◌⊎◌, true, false, some, List, [], ◌∷◌, All, Any, ok,
  err, arith, is_some,
}
use wg_ondemand.Types.{Config, monitoring, activating, active, inactive}
use wg_ondemand.Config.Subnets.{IsCidr, Covers}
use wg_ondemand.Config.Validate.{IsValidConfig}
use wg_ondemand.Controller.{bring_up}
use wg_ondemand.Ebpf.Slots.{IsLawful}
use wg_ondemand.Ebpf.{Kernel, from_be32, load_port, wg_ondemand_tc}
use wg_ondemand.Ebpf.Classifier.{header}
use wg_ondemand.Loader.{attach, is_attached, poll_events}
use wg_ondemand.Loader.Link.{HasRing, attach_ok}
use wg_ondemand.Loader.Agreement.{NotBroadcast}
use wg_ondemand.State.{start_monitoring, handle_command}
use wg_ondemand.State as State
use wg_ondemand.Daemon.{
  World, Daemon, running, and_then, local_address, on_attach, on_command, handle, perform,
  attach_with_routes, write_file,
}
use wg_ondemand.Daemon.Start.{initial}
use wg_ondemand.Daemon.Loop.{Event, command, ebpf_tick, step, steps, daemon_of}
use wg_ondemand.Daemon.Init.{Started, Started-Loaded}
use wg_ondemand.Daemon.Actions.{attaches}
use wg_ondemand.Daemon.Filter.{Started-ranges}
use wg_ondemand.Daemon.Packet.{packet_activates}

module _ {W : World} where
  -- The daemon that has taken the command of the start.
  abbrev pub starting : Daemon W → Daemon W
  starting d = record d {
    state_queue = [];
    state_manager = record d.state_manager { state = monitoring; on_monitored_ssid = true };
  }

  abbrev pub watching_since : Daemon W → Daemon W
  watching_since d = write_file (attach_with_routes (starting d))

  first_command :
      (t : ℕ) (d : Daemon W)
      → d.state_manager.state ≡ inactive
      → d.state_queue ≡ start_monitoring ∷ []
      → on_attach (starting d) ≡ attach_with_routes (starting d)
      → on_command t d ≡ running (watching_since d)
  unfolding on_command handle handle_command perform
  first_command t d off waits attached = ground (arith, off, waits, attached)

  after_first :
      (t : ℕ) (es : List (Event W.os.State)) (d d' : Daemon W)
      → on_command t d ≡ running d'
      → steps (command t ∷ es) d ≡ steps es d'
  unfolding steps step
  after_first t es d d' e = rw (and_then, e) refl

  no_event : (d : Daemon W) → daemon_of (steps [] d) ≡ d
  unfolding steps
  no_event d = refl

  watching_fields :
      (d : Daemon W)
      → let d' = watching_since d in
        (d'.state_manager.state ≡ monitoring)
        × (d'.state_queue ≡ [])
        × (d'.ranges ≡ d.ranges)
        × (d'.ebpf_manager ≡ (attach W.aya d.ebpf_manager).0)
  unfolding write_file attach_with_routes
  watching_fields d = (refl, refl, refl, refl)

  starting_address : (d : Daemon W) → local_address (starting d) ≡ local_address d
  unfolding local_address
  starting_address d = refl

module _ (W : World) (config : Config) where
  -- The machine is inactive, and the loaded manager is the daemon's.
  Started-fresh :
      (d : Daemon W) (from : Started W config d)
      → (d.state_manager.state ≡ inactive) × (d.ebpf_manager ≡ from.ebpf)
  unfolding initial State.new
  Started-fresh d from = (
    sym (ap (λ (x : Daemon W). x.state_manager.state) from.is_initial),
    sym (ap (λ (x : Daemon W). x.ebpf_manager) from.is_initial),
  )

  first_attachment :
      (d : Daemon W) (from : Started W config d)
      → (attach W.aya d.ebpf_manager).1 ≡ ok tt
      → let m = (attach W.aya d.ebpf_manager).0 in
        (is_attached W.aya m ≡ true) × (is_some (poll_events W.aya m) ≡ true)
  unfolding is_attached
  first_attachment d from done =
      let (_, same) = Started-fresh d from in
      let off = Started-Loaded W config d from in
      let no_link : HasRing W.aya d.ebpf_manager =
        λ linked. absurd (ground (arith, linked, off.detached, ap (is_attached W.aya) same)) in
      let (on, ring, _, _) = attach_ok W.aya d.ebpf_manager no_link done in (on, ring)

-- On a map that keeps the laws of an array. A daemon has started with a valid configuration, without
-- the broadcast address alone; a monitored network is connected and the tunnel is down, so that
-- `StartMonitoring` is the one command that waits; and the interface has an address in no subnet's
-- block, and its attachment succeeds. After the first command it is Monitoring, with the classifier
-- attached. A packet to a subnet, with an IPv4 header and readable ports, then passes the classifier,
-- which tests it against the map that the start has written; and when its entry in the empty ring has
-- been polled, and the command after it is taken, the daemon is Activating. After one more command it
-- is Active, if the tunnel's command succeeded, with no classifier attached and no active route; and
-- otherwise still Activating.
pub start_to_active :
    (W : World) (L : IsLawful W.subnet_map) (K : Kernel) (config : Config) (d : Daemon W)
    (from : Started W config d) (ip : ℕ) (ctx : K.Ctx) (hdr : K.Ipv4Hdr) (port now t t' t'' : ℕ)
    → IsValidConfig config
    → All NotBroadcast config.subnets.ranges
    → d.state_queue ≡ start_monitoring ∷ []
    → local_address d ≡ ok (some ip)
    → ip < 2 ^ 32
    → ¬ Any (Covers ip) config.subnets.ranges
    → (attach W.aya d.ebpf_manager).1 ≡ ok tt
    → header K W.subnet_map from.map ctx ≡ some hdr
    → load_port K ctx hdr ≡ some port
    → K.has_room [] ≡ true
    → from_be32 (K.dst_addr hdr) < 2 ^ 32
    → Any (Covers (from_be32 (K.dst_addr hdr))) config.subnets.ranges
    → let (ret, ring) = wg_ondemand_tc K W.subnet_map from.map ctx now [] in
      let d1 = daemon_of (steps (command t ∷ []) d) in
      let d2 = daemon_of (steps (command t ∷ ebpf_tick ring ∷ command t' ∷ []) d) in
      let d3 = daemon_of (steps (command t ∷ ebpf_tick ring ∷ command t' ∷ command t'' ∷ []) d) in
      let up = (bring_up W.os d1.wg_controller d1.sys).1 in
      (ret ≡ K.tc_act_ok)
      × (d1.state_manager.state ≡ monitoring)
      × (is_attached W.aya d1.ebpf_manager ≡ true)
      × (d2.state_manager.state ≡ activating)
      × (((e : Error) × (up ≡ err e) × (d3.state_manager.state ≡ activating))
          ⊎ ((up ≡ ok tt)
              × (d3.state_manager.state ≡ active)
              × (is_attached W.aya d3.ebpf_manager ≡ false)
              × (d3.route_manager.active_routes ≡ [])))
start_to_active W L K config d from ip ctx hdr port now t t' t'' valid plain waits known short free
      attached head loads room dst_short covered =
    let ranges = Started-ranges W config d from in
    let object = Started-Loaded W config d from in
    let (off, _) = Started-fresh W config d from in
    let accepted : All IsCidr d.ranges = rw ranges valid.cidrs in
    let outside : ¬ Any (Covers ip) d.ranges = rw ranges free in
    let at = attaches (starting d) ip accepted (starting_address d ∙ known) short outside in
    let goes = first_command t d off waits at in
    let d1 = watching_since d in
    let (watching, empty, same_ranges, manager) = watching_fields d in
    let (on, ring) = first_attachment W config d from attached in
    let (ret, up1, _, up2) =
      packet_activates W L K d1 object.fresh from.map ctx hdr port now t' t''
        (rw (same_ranges, ranges) object.configured) (rw (same_ranges, ranges) valid.cidrs)
        (rw (same_ranges, ranges) plain) (rw (same_ranges, ranges) valid.few_ranges) head loads room
        dst_short (rw (same_ranges, ranges) covered) watching empty (rw manager ring) in
    let entries = (wg_ondemand_tc K W.subnet_map from.map ctx now []).1 in
    rw
      (
        after_first t [] d d1 goes,
        after_first t (ebpf_tick entries ∷ command t' ∷ []) d d1 goes,
        after_first t (ebpf_tick entries ∷ command t' ∷ command t'' ∷ []) d d1 goes,
        no_event d1,
      )
      (ret, watching, rw manager on, up1, up2)
