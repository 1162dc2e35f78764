-- ===== src/Daemon/Late.antt =====
-- A network whose address comes late: the retry task from its start to the attachment.
use wg_ondemand.Base.{
  ℕ, ◌^◌, ◌<◌, ◌≡◌, refl, true, false, some, none, List, [], ◌∷◌, ◌++◌, Text, All, Any, ok, arith,
}
use wg_ondemand.Types.{monitoring, inactive}
use wg_ondemand.Config.Subnets.{IsCidr, Covers}
use wg_ondemand.Routes.{add_routes}
use wg_ondemand.State.{retry_ebpf_attachment, handle_command}
use wg_ondemand.StateFile.{write_state}
use wg_ondemand.Ssid.{connected_to_target}
use wg_ondemand.Net.{get_interface_ip}
use wg_ondemand.Retry.{spawned, wake}
use wg_ondemand.Daemon.{
  World, Daemon, local_address, on_attach, on_command, handle, perform, send, non_empty,
  on_network_event, attach_with_routes, spawn_attachment_retry_task, write_file,
}
use wg_ondemand.Daemon.Retries.{on_wake, on_retry_send}
use wg_ondemand.Loader.Link.{Tried, attach-Tried}
use wg_ondemand.Daemon.Loop.{
  Event, network, command, retry_wakes, retry_sends, system_changes, pick, task_wakes, step, steps,
  daemon_of,
}
use wg_ondemand.Daemon.Join.{joining, Watches}
use wg_ondemand.Daemon.Actions.{attaches}

module _ {W : World} where
  -- Joined without an address, with a retry task that sleeps.
  abbrev waiting : Text → Daemon W → Daemon W
  waiting ssid d =
      write_file (record (joining ssid d) { retry_in_progress = true; retry_tasks = spawned ∷ [] })

  -- The task has found an address, and sent its command.
  abbrev asked : Daemon W → Daemon W
  asked d = record d {
    retry_in_progress = false;
    retry_tasks = [];
    retry_senders = 0;
    state_queue = retry_ebpf_attachment ∷ [];
  }

  joins :
      (ssid : Text) (t : ℕ) (d : Daemon W)
      → d.state_manager.state ≡ inactive
      → d.state_queue ≡ []
      → d.retry_in_progress ≡ false
      → d.retry_tasks ≡ []
      → local_address d ≡ ok none
      → (es : List (Event W.os.State))
      → steps (network (connected_to_target ssid) ∷ command t ∷ es) d ≡ steps es (waiting ssid d)
  unfolding steps step on_network_event send on_command handle handle_command perform on_attach
      spawn_attachment_retry_task local_address
  joins ssid t d off empty clear no_task missing es =
      ground (arith, off, empty, clear, no_task, missing)

  asks :
      (d : Daemon W) (ip : ℕ)
      → d.retry_tasks ≡ spawned ∷ []
      → d.retry_senders ≡ 0
      → d.state_queue ≡ []
      → local_address d ≡ ok (some ip)
      → (es : List (Event W.os.State))
      → steps (retry_wakes 0 ∷ retry_sends ∷ es) d ≡ steps es (asked d)
  unfolding steps step pick task_wakes on_wake wake on_retry_send
  asks d ip task nobody empty known es = ground (arith, task, nobody, empty, known)

  answers :
      (t : ℕ) (d : Daemon W)
      → d.state_manager.state ≡ monitoring
      → on_attach (record d { state_queue = [] })
        ≡ attach_with_routes (record d { state_queue = [] })
      → d.state_queue ≡ retry_ebpf_attachment ∷ []
      → daemon_of (steps (command t ∷ []) d)
        ≡ write_file (attach_with_routes (record d { state_queue = [] }))
  unfolding steps step on_command handle handle_command perform
  answers t d watching attached waits = ground (arith, watching, waits, attached)

  changes :
      (change : W.os.State → W.os.State) (es : List (Event W.os.State)) (d : Daemon W)
      → steps (system_changes change ∷ es) d ≡ steps es (record d { sys = change d.sys })
  unfolding steps step
  changes change es d = refl

  -- The daemon once the address is there.
  abbrev addressed : Text → (W.os.State → W.os.State) → Daemon W → Daemon W
  addressed ssid change d = record (waiting ssid d) {
    sys = change (write_state W.files monitoring (non_empty ssid) d.sys).0;
  }

  abbrev arrived : Text → (W.os.State → W.os.State) → Daemon W → Daemon W
  arrived ssid change d =
      write_file
        (attach_with_routes (record (asked (addressed ssid change d)) { state_queue = [] }))

  -- What has become of the daemon, with the routes added in the state `s`.
  abbrev pub Arrived : Text → W.os.State → Daemon W → Daemon W → Type 0
  Arrived ssid s d d' =
      Watches ssid d'
      × Tried W.aya d.ebpf_manager d'.ebpf_manager
      × (d'.route_manager ≡ (add_routes W.os d.ranges d.route_manager s).1)
      × (d'.retry_tasks ≡ [])
      × (d'.retry_in_progress ≡ false)

  arrived_fields :
      (ssid : Text) (change : W.os.State → W.os.State) (d : Daemon W)
      → let s = change (write_state W.files monitoring (non_empty ssid) d.sys).0 in
        Arrived ssid s d (arrived ssid change d)
  unfolding write_file attach_with_routes
  arrived_fields ssid change d =
      ((refl, refl, refl), attach-Tried W.aya d.ebpf_manager, refl, refl, refl)

  -- An Inactive daemon with an empty channel, accepted subnets and no retry task finds a monitored
  -- network, while the interface has no address. The system then changes, so that the interface has
  -- an address, in no subnet's block. After the retry task has woken and sent its command, and the
  -- command is taken, the daemon is Monitoring, with the network's name and an empty channel; an
  -- attachment of the classifier has been tried, after which it is attached or the attachment has
  -- failed, and an addition of the routes; and there is no retry task.
  pub late_address-Arrived :
      (ssid : Text) (t t' ip : ℕ) (change : W.os.State → W.os.State) (d : Daemon W)
      → d.state_manager.state ≡ inactive
      → d.state_queue ≡ []
      → d.retry_in_progress ≡ false
      → d.retry_tasks ≡ []
      → d.retry_senders ≡ 0
      → All IsCidr d.ranges
      → local_address d ≡ ok none
      → ((s : W.os.State)
          → get_interface_ip (W.get_if_addrs (change s)) d.monitor_iface ≡ ok (some ip))
      → ip < 2 ^ 32
      → ¬ Any (Covers ip) d.ranges
      → let found = network (connected_to_target ssid) ∷ command t ∷ [] in
        let es = system_changes change ∷ retry_wakes 0 ∷ retry_sends ∷ command t' ∷ [] in
        let s = change (write_state W.files monitoring (non_empty ssid) d.sys).0 in
        Arrived ssid s d (daemon_of (steps (found ++ es) d))
  unfolding local_address write_file
  late_address-Arrived ssid t t' ip change d off empty clear no_task nobody accepted missing known
        short free =
      let d1 = addressed ssid change d in
      let found = known (write_state W.files monitoring (non_empty ssid) d.sys).0 in
      let last = command t' ∷ [] in
      let attached =
        attaches (record (asked d1) { state_queue = [] }) ip accepted found short free in
      rw
        (
          joins ssid t d off empty clear no_task missing
              (system_changes change ∷ retry_wakes 0 ∷ retry_sends ∷ last),
          changes change (retry_wakes 0 ∷ retry_sends ∷ last) (waiting ssid d),
          asks d1 ip refl nobody refl found last,
          answers t' (asked d1) refl attached refl,
        )
        (arrived_fields ssid change d)
