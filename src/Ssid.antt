-- ===== src/Ssid.antt =====
-- wg-ondemand/src/ssid_monitor.rs: the current SSID by D-Bus, the SSID rules, and the monitor loop.
pub mod Rules
pub mod Events
pub mod Channel
use wg_ondemand.Base.{
  ℕ, Bool, true, false, not, ◌&&◌, Option, none, some, List, [], ◌∷◌, ◌++◌, Text, text_eq, contains,
  is_empty, if◌then◌else◌, Result, ok, err, ◌>>=◌, or_fail, invalid_utf8, dbus_failed,
}
use wg_ondemand.Base.Str.{codes}
use wg_ondemand.Base.Utf8.{from_utf8}

pub data NetworkEvent : Type 0 where
  connected_to_target : Text → NetworkEvent
  disconnected : NetworkEvent

-- NetworkManager as the proxies show it at one moment. An object path is a text; each answer may be
-- a D-Bus error, and a proxy may fail to be built.
pub record Bus : Type 0 where
  pub nm_proxy : Result (Unit {0})
  pub primary_connection : Result Text
  pub active_proxy : Text → Result (Unit {0})
  pub connection_type : Text → Result Text
  pub devices : Text → Result (List Text)
  pub wireless_proxy : Text → Result (Unit {0})
  pub active_access_point : Text → Result Text
  pub access_point_proxy : Text → Result (Unit {0})
  pub ssid : Text → Result (List ℕ)

access_point_ssid : Bus → Text → Result (Option Text)
access_point_ssid bus ap_path = do
  built ← bus.access_point_proxy ap_path
  ssid_bytes ← bus.ssid ap_path
  ssid ← or_fail (from_utf8 ssid_bytes) invalid_utf8
  ok (some ssid)

-- The access point of a wireless device, and its SSID.
device_ssid : Bus → Text → Result (Option Text)
device_ssid bus device = do
  built ← bus.wireless_proxy device
  ap_path ← bus.active_access_point device
  if text_eq ap_path (codes "/") then ok none else access_point_ssid bus ap_path

first_device : Bus → List Text → Result (Option Text)
first_device bus [] = ok none
first_device bus (device ∷ _) = device_ssid bus device

wireless_ssid : Bus → Text → Result (Option Text)
wireless_ssid bus primary = do devices ← bus.devices primary; first_device bus devices

-- The part behind the primary connection.
connection_ssid : Bus → Text → Result (Option Text)
connection_ssid bus primary = do
  built ← bus.active_proxy primary
  kind ← bus.connection_type primary
  if text_eq kind (codes "802-11-wireless") then wireless_ssid bus primary else ok none

unfoldable pub current_ssid : Bus → Result (Option Text)
unfolding connection_ssid wireless_ssid first_device device_ssid access_point_ssid
current_ssid bus = do
  built ← bus.nm_proxy
  elim bus.primary_connection [
    | err _ ↦ ok none
    | ok primary ↦ if text_eq primary (codes "/") then ok none else connection_ssid bus primary
  ]

pub record SsidMonitor : Type 0 where
  pub target_ssids : List Text
  pub exclude_ssids : List Text

-- `SsidMonitor::new`, with the connection to the system bus if there is one: the monitor, and what
-- the bus shows.
unfoldable pub new : List Text → List Text → Option Bus → Result (SsidMonitor × Bus)
new target_ssids exclude_ssids none = err dbus_failed
new target_ssids exclude_ssids (some bus) =
    ok (record { target_ssids = target_ssids; exclude_ssids = exclude_ssids }, bus)

unfoldable pub is_connected_to_target : SsidMonitor → Bus → Result Bool
is_connected_to_target m bus = do
  current ← current_ssid bus
  elim current [
    | none ↦ ok false
    | some ssid ↦
        if contains m.exclude_ssids ssid
        then ok false
        else if is_empty m.target_ssids
        then ok true
        else ok (contains m.target_ssids ssid)
  ]

-- A signal that the primary connection changed: the bus when the rules are checked, and the bus
-- when the SSID is asked for once more.
pub record Signal : Type 0 where
  pub checked : Bus
  pub named : Bus

-- The SSID for the event; an empty one if it cannot be had.
name_of : Bus → Text
name_of bus = elim (current_ssid bus) [
  | ok current ↦ elim current [ some ssid ↦ ssid | none ↦ [] ]
  | err _ ↦ []
]

events_of : Bool → Bool → Bus → List NetworkEvent
events_of is_connected was_connected bus =
    if is_connected && not was_connected
    then connected_to_target (name_of bus) ∷ []
    else if not is_connected && was_connected
    then disconnected ∷ []
    else []

-- `while let Some(_signal) = stream.next().await`: what is sent, in order. A check that fails is
-- skipped.
unfoldable pub monitor_loop : SsidMonitor → Bool → List Signal → List NetworkEvent
unfolding events_of name_of
monitor_loop m was_connected [] = []
monitor_loop m was_connected (s ∷ signals) =
    let skipped = monitor_loop m was_connected signals in
    elim (is_connected_to_target m s.checked) [
      | err _ ↦ skipped
      | ok is_connected ↦
          events_of is_connected was_connected s.named ++ monitor_loop m is_connected signals
    ]

unfoldable pub monitor : SsidMonitor → Bus → List Signal → Result (List NetworkEvent)
monitor m start signals = do
  built ← start.nm_proxy
  was_connected ← is_connected_to_target m start
  ok (monitor_loop m was_connected signals)
