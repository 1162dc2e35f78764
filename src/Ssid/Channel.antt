-- ===== src/Ssid/Channel.antt =====
-- wg-ondemand/src/ssid_monitor.rs, `SsidMonitor::monitor`, as a task beside the main loop of main.rs:
-- the two share a channel of at most 32 events, on which the task waits while it is full.
pub mod Fifo
use wg_ondemand.Base.{
  ℕ, ◌+◌, ◌≤◌, ◌≡◌, refl, ap, sym, ◌∙◌, inl, inr, Bool, List, [], ◌∷◌, ◌++◌, append_assoc,
  append-nil, arith, length, length-append, ltb, if◌then◌else◌, ok, err, Bool-cases, Result-cases,
}
use wg_ondemand.Ssid.{
  NetworkEvent, SsidMonitor, Signal, Bus, is_connected_to_target, events_of, monitor_loop,
}

abbrev pub network_event_channel_size : ℕ
network_event_channel_size = 32

-- The task waits for a signal, or in `tx.send`, or it is over; `was_connected` goes with it.
pub data MonitorTask : Type 0 where
  listening : Bool → MonitorTask
  sending : Bool → NetworkEvent → MonitorTask
  ended : MonitorTask

pub record Network : Type 0 where
  pub task : MonitorTask
  pub network_queue : List NetworkEvent

-- What may happen: the stream yields a signal or ends, a `send` finds room, the loop receives.
pub data Move : Type 0 where
  signals : Signal → Move
  stream_ends sends receives : Move

-- The task up to its loop.
unfoldable pub monitor_task : SsidMonitor → Bus → MonitorTask
monitor_task m bus = elim bus.nm_proxy [
  | err _ ↦ ended
  | ok _ ↦ elim (is_connected_to_target m bus) [ err _ ↦ ended | ok was ↦ listening was ]
]

-- After a check: an event is sent, or the task listens on.
reports : Bool → List NetworkEvent → MonitorTask
reports is_connected [] = listening is_connected
reports is_connected (e ∷ _) = sending is_connected e

check_signal : SsidMonitor → Bool → Signal → MonitorTask
unfolding reports
check_signal m was_connected s = elim (is_connected_to_target m s.checked) [
  | err _ ↦ listening was_connected
  | ok is_connected ↦ reports is_connected (events_of is_connected was_connected s.named)
]

task_sends : MonitorTask → Network → Network
task_sends (sending is_connected e) n =
    if ltb (length n.network_queue) network_event_channel_size
    then record { task = listening is_connected; network_queue = n.network_queue ++ e ∷ [] }
    else n
task_sends _ n = n

task_signalled : SsidMonitor → MonitorTask → Signal → MonitorTask
unfolding check_signal
task_signalled m (listening was) s = check_signal m was s
task_signalled m t s = t

task_ends : MonitorTask → MonitorTask
task_ends (listening was) = ended
task_ends t = t

-- The network after a move, and what the loop has received by it. A signal that the task does not
-- listen for is left to the stream.
unfoldable pub move : SsidMonitor → Move → Network → Network × List NetworkEvent
unfolding task_signalled task_sends task_ends events_of
move m (signals s) n = (record n { task = task_signalled m n.task s }, [])
move m stream_ends n = (record n { task = task_ends n.task }, [])
move m sends n = (task_sends n.task n, [])
move m receives n = elim n.network_queue [
  | [] ↦ (n, [])
  | e ∷ queue ↦ (record n { network_queue = queue }, e ∷ [])
]

unfoldable pub moves : SsidMonitor → List Move → Network → Network × List NetworkEvent
moves m [] n = (n, [])
moves m (v ∷ vs) n =
    let (n', first) = move m v n in let (n'', later) = moves m vs n' in (n'', first ++ later)

-- The signal that a move hands to the task.
abbrev pub heeded_by : MonitorTask → Move → List Signal
heeded_by (listening was) (signals s) = s ∷ []
heeded_by _ _ = []

unfoldable pub heeded : SsidMonitor → List Move → Network → List Signal
heeded m [] n = []
heeded m (v ∷ vs) n = heeded_by n.task v ++ heeded m vs (move m v n).0

-- The event that the task waits to send, and what it goes by afterwards.
abbrev pub pending : MonitorTask → List NetworkEvent
pending (sending is_connected e) = e ∷ []
pending _ = []

-- The reports that are still to come from the task.
abbrev pub to_come : SsidMonitor → MonitorTask → List Signal → List NetworkEvent
to_come m (listening was) ss = monitor_loop m was ss
to_come m (sending is_connected e) ss = e ∷ monitor_loop m is_connected ss
to_come m ended ss = []
