-- ===== src/Daemon/Join.antt =====
-- From a found network to a daemon that watches its traffic.
use wg_ondemand.Base.{
  ℕ, Error, ◌^◌, ◌<◌, ◌≡◌, refl, ◌⊎◌, inl, inr, true, none, some, [], ◌∷◌, Text, All, Any, ok, err,
  arith,
}
use wg_ondemand.Types.{inactive, monitoring}
use wg_ondemand.Config.Subnets.{IsCidr, Covers}
use wg_ondemand.Routes.{add_routes}
use wg_ondemand.State.{handle_command}
use wg_ondemand.Ssid.{connected_to_target}
use wg_ondemand.Daemon.{
  World, Daemon, send, non_empty, local_address, on_network_event, on_command, handle, perform,
  on_attach, attach_with_routes, spawn_attachment_retry_task, write_file,
}
use wg_ondemand.Loader.Link.{Tried, attach-Tried}
use wg_ondemand.Daemon.Loop.{network, command, step, steps, daemon_of}
use wg_ondemand.Daemon.Actions.{on_attach_lem}

module _ {W : World} where
  -- The daemon that has taken the command of a connection.
  abbrev pub joining : Text → Daemon W → Daemon W
  joining ssid d = record d {
    current_ssid = non_empty ssid;
    state_queue = [];
    state_manager = record d.state_manager { state = monitoring; on_monitored_ssid = true };
  }

  abbrev pub joined : Text → ℕ → Daemon W → Daemon W
  joined ssid t d = daemon_of (steps (network (connected_to_target ssid) ∷ command t ∷ []) d)

  joined_lem :
      (ssid : Text) (t : ℕ) (d : Daemon W)
      → d.state_manager.state ≡ inactive
      → d.state_queue ≡ []
      → joined ssid t d ≡ write_file (on_attach (joining ssid d))
  unfolding steps step on_network_event send on_command handle handle_command perform
  joined_lem ssid t d off empty = ground (arith, off, empty)

  -- What the attachment has left alone.
  abbrev pub Untouched : Daemon W → Daemon W → Type 0
  Untouched d d' = (d'.ebpf_manager ≡ d.ebpf_manager) × (d'.route_manager ≡ d.route_manager)

  -- Watching a network, with an empty channel.
  abbrev pub Watches : Text → Daemon W → Type 0
  Watches ssid d =
      (d.state_manager.state ≡ monitoring)
      × (d.current_ssid ≡ non_empty ssid)
      × (d.state_queue ≡ [])

  joining-Watches :
      (ssid : Text) (d : Daemon W) → Watches ssid (write_file (on_attach (joining ssid d)))
  unfolding on_attach attach_with_routes spawn_attachment_retry_task write_file
  joining-Watches ssid d = ground arith

  -- An Inactive daemon with an empty channel, accepted subnets and addresses of 32 bits finds a
  -- monitored network. After the event and one turn of the command branch, with nothing in between,
  -- it is Monitoring, with the network's name and an empty channel. If the interface's address
  -- cannot be read, or lies in some subnet's block, classifier and routes are left alone; without
  -- an address as well, but a retry task is running; and with another address an attachment of the
  -- classifier is tried, once, after which it is attached or the attachment has failed, and an
  -- addition of the routes, whose failure is passed over.
  pub connect-Watches :
      (ssid : Text) (t : ℕ) (d : Daemon W)
      → d.state_manager.state ≡ inactive
      → d.state_queue ≡ []
      → All IsCidr d.ranges
      → ((ip : ℕ) → local_address d ≡ ok (some ip) → ip < 2 ^ 32)
      → let d' = joined ssid t d in
        Watches ssid d'
        × (((e : Error) × (local_address d ≡ err e) × Untouched d d')
            ⊎ ((local_address d ≡ ok none) × Untouched d d' × (d'.retry_in_progress ≡ true))
            ⊎ ((ip : ℕ) × (local_address d ≡ ok (some ip))
                × Any (Covers ip) d.ranges
                × Untouched d d')
            ⊎ ((ip : ℕ) × (local_address d ≡ ok (some ip))
                × (¬ Any (Covers ip) d.ranges)
                × Tried W.aya d.ebpf_manager d'.ebpf_manager
                × (d'.route_manager ≡ (add_routes W.os d.ranges d.route_manager d.sys).1)))
  unfolding local_address write_file attach_with_routes spawn_attachment_retry_task
  connect-Watches ssid t d off empty accepted short = rw (joined_lem ssid t d off empty) (
    joining-Watches ssid d,
    elim (on_attach_lem (joining ssid d) accepted short) [
      | inl (e, unread, same) ↦ inl (e, unread, rw same (refl, refl))
      | inr (inl (missing, same, retries)) ↦ inr (inl (missing, rw same (ground arith), retries))
      | inr (inr (inl (ip, here, covered, same))) ↦
          inr (inr (inl (ip, here, covered, rw same (refl, refl))))
      | inr (inr (inr (ip, here, free, same))) ↦
          inr
            (inr (inr (ip, here, free, rw same (attach-Tried W.aya d.ebpf_manager), rw same refl)))
    ],
  )
