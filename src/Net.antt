-- ===== src/Net.antt =====
-- wg-ondemand/src/main.rs: the address of an interface, and the choice of the one to monitor.
pub mod Addresses
use wg_ondemand.Base.{
  ℕ, Bool, true, false, ◌&&◌, Option, none, some, List, [], ◌∷◌, Text, text_eq, if◌then◌else◌,
  Result, ok, err, no_interface_addresses, no_interface, command_not_run,
}
use wg_ondemand.Base.Str.{codes, lines, after_first, first_word}
use wg_ondemand.Base.Ipv4.{Ipv4Addr, from_be_bytes}
use wg_ondemand.Os.{Os, Io, Output, output, then_io}

-- `if_addrs::IfAddr`; an IPv6 address is not looked at.
pub data IfAddr : Type 0 where
  v4 : Ipv4Addr → IfAddr
  v6 : IfAddr

-- `if_addrs::Interface`
pub record Interface : Type 0 where
  pub name : Text
  pub addr : IfAddr

abbrev v4_address : IfAddr → Option ℕ
v4_address (v4 ip) = some (from_be_bytes ip)
v4_address v6 = none

abbrev first_some : Option ℕ → Option ℕ → Option ℕ
first_some (some n) later = some n
first_some none later = later

first_address : Text → List Interface → Option ℕ
first_address interface [] = none
first_address interface (i ∷ rest) =
    let later = first_address interface rest in
    if text_eq i.name interface then first_some (v4_address i.addr) later else later

-- `interfaces` is what `get_if_addrs` returns.
unfoldable pub get_interface_ip : Option (List Interface) → Text → Result (Option ℕ)
unfolding first_address
get_interface_ip none interface = err no_interface_addresses
get_interface_ip (some interfaces) interface = ok (first_address interface interfaces)

-- The entries of /sys/class/net, each with whether it has a `wireless` directory.
first_wireless : List (Text × Bool) → Option Text
first_wireless [] = none
first_wireless ((name, wireless) ∷ rest) = if wireless then some name else first_wireless rest

abbrev line_interface : Text → Option Text
line_interface line = elim (after_first (codes " dev ") line) [
  | some rest ↦ first_word rest
  | none ↦ none
]

default_interface : List Text → Option Text
default_interface [] = none
default_interface (line ∷ rest) =
    let later = default_interface rest in
    elim (line_interface line) [ some iface ↦ some iface | none ↦ later ]

abbrev found_or_fail : Option Text → Result Text
found_or_fail (some iface) = ok iface
found_or_fail none = err no_interface

route_interface : Output → Result Text
route_interface out =
    if out.success then found_or_fail (default_interface (lines out.stdout)) else err no_interface

abbrev show_default : List Text
show_default = codes "ip" ∷ codes "route" ∷ codes "show" ∷ codes "default" ∷ []

abbrev wireless_entry : Option (List (Text × Bool)) → Option Text
wireless_entry none = none
wireless_entry (some entries) = first_wireless entries

-- `entries` is `none` if the directory cannot be read.
unfoldable pub auto_detect_interface : (O : Os) → Option (List (Text × Bool)) → Io O Text
unfolding first_wireless route_interface default_interface
auto_detect_interface O entries s = elim (wireless_entry entries) [
  | some name ↦ (s, ok name)
  | none ↦ then_io O (output O show_default command_not_run) (λ out s'. (s', route_interface out)) s
]
