-- ===== src/Tests/Wifi.antt =====
-- The SSID rules and the monitor loop at a network called "cafe".
use wg_ondemand.Base.{◌≡◌, false, List, [], ◌∷◌, Text, ok, err, dbus_failed}
use wg_ondemand.Base.Str.{codes}
use wg_ondemand.Ssid.{Bus, SsidMonitor, Signal, monitor_loop}
use wg_ondemand.Ssid.Events.{Alternates, follow, last_check, monitor_loop_lem}

-- A wireless connection to the network of the name.
abbrev wireless : Text → Bus
wireless name = record {
  nm_proxy = ok tt;
  primary_connection = ok (codes "/c");
  active_proxy = λ _. ok tt;
  connection_type = λ _. ok (codes "802-11-wireless");
  devices = λ _. ok (codes "/d" ∷ []);
  wireless_proxy = λ _. ok tt;
  active_access_point = λ _. ok (codes "/a");
  access_point_proxy = λ _. ok tt;
  ssid = λ _. ok name;
}

abbrev failing : Bus
failing = record (wireless []) { nm_proxy = err dbus_failed }

abbrev rules : SsidMonitor
rules = record { target_ssids = codes "cafe" ∷ codes "pub" ∷ []; exclude_ssids = codes "home" ∷ [] }

abbrev at : Text → Signal
at name = record { checked = wireless name; named = wireless name }

abbrev a_walk : List Signal
a_walk = at (codes "cafe") ∷ record { checked = failing; named = failing } ∷ at (codes "home") ∷ []

monitor_loop_lem_example :
    let es = monitor_loop rules false a_walk in
    Alternates false es × (follow false es ≡ last_check rules false a_walk)
monitor_loop_lem_example = monitor_loop_lem rules false a_walk
