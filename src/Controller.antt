-- ===== src/Controller.antt =====
-- wg-ondemand/src/wg_controller.rs: names, the tunnel's commands, its statistics and its idle time.
-- An `Instant` and a `Duration` are counts of nanoseconds. A `u64` sum wraps, as a release build's
-- does.
pub mod Names
pub mod Commands
pub mod Transfer
pub mod Activity
pub mod Runs
use wg_ondemand.Base.{
  ℕ, ◌+◌, ◌-◌, ◌%◌, ◌^◌, Bool, true, false, not, ◌&&◌, ◌||◌, Option, none, some, List, [], ◌∷◌,
  Text, leb, ◌==◌, if◌then◌else◌, is_empty, Result, ok, err, ◌>>=◌, ◌>>◌, empty_name,
  invalid_characters, command_not_run, command_failed,
}
use wg_ondemand.Base.Str.{codes, split, lines, has}
use wg_ondemand.Base.Num.{max_u64, parse_uint}
use wg_ondemand.Os.{Os, Io, Output, output, then_io}

abbrev pub is_ascii_alphanumeric : ℕ → Bool
is_ascii_alphanumeric c =
    (leb b'0' c && leb c b'9') || (leb b'A' c && leb c b'Z') || (leb b'a' c && leb c b'z')

abbrev pub is_name_char : ℕ → Bool
is_name_char c = is_ascii_alphanumeric c || c == b'-' || c == b'_'

all_name_chars : Text → Bool
all_name_chars [] = true
all_name_chars (c ∷ s) = is_name_char c && all_name_chars s

-- `field_name` stands only in the messages.
unfoldable pub validate_name : Text → Result (Unit {0})
unfolding all_name_chars
validate_name name =
    if is_empty name
    then err empty_name
    else if all_name_chars name
    then ok tt
    else err invalid_characters

unfoldable pub validate_interface_name : Text → Result (Unit {0})
validate_interface_name name = validate_name name

pub record WgController : Type 0 where
  pub interface : Text
  pub nm_connection : Option Text
  pub last_rx_bytes : ℕ
  pub last_tx_bytes : ℕ
  pub last_activity : Option ℕ

validate_connection : Option Text → Result (Unit {0})
validate_connection none = ok tt
validate_connection (some nm_conn) = validate_name nm_conn

unfoldable pub new : Text → Option Text → Result WgController
unfolding validate_connection
new interface nm_connection = do
  validate_name interface
  validate_connection nm_connection
  ok (record {
    interface = interface;
    nm_connection = nm_connection;
    last_rx_bytes = 0;
    last_tx_bytes = 0;
    last_activity = none;
  })

-- The command that an operation runs: by NetworkManager, or else by wg-quick.
unfoldable pub tunnel_command : Text → WgController → List Text
tunnel_command verb c = elim c.nm_connection [
  | some nm_conn ↦ codes "nmcli" ∷ codes "connection" ∷ verb ∷ nm_conn ∷ []
  | none ↦ codes "wg-quick" ∷ verb ∷ c.interface ∷ []
]

-- The command of `is_up`.
abbrev pub show_link : WgController → List Text
show_link c = codes "ip" ∷ codes "link" ∷ codes "show" ∷ c.interface ∷ []

module _ (O : Os) where
  unfoldable pub is_up : WgController → O.State → O.State × Bool
  is_up c s =
      let (s', out) = O.run s (show_link c) in (s', elim out [ some o ↦ o.success | none ↦ false ])

  unfoldable pub bring_up : WgController → Io O (Unit {0})
  bring_up c =
      then_io O (output O (tunnel_command (codes "up") c) command_not_run)
        λ out s. (s, if out.success then ok tt else err command_failed)

  -- A failure of `nmcli` is only logged; one of `wg-quick` is an error, unless it says that the
  -- interface is down already.
  down_result : Option Text → Output → Result (Unit {0})
  down_result (some nm_conn) out = ok tt
  down_result none out =
      if out.success
      then ok tt
      else if has (codes "is not a WireGuard interface") out.stderr
      then ok tt
      else err command_failed

  unfoldable pub bring_down : WgController → Io O (Unit {0})
  unfolding down_result
  bring_down c =
      then_io O (output O (tunnel_command (codes "down") c) command_not_run)
        λ out s. (s, down_result c.nm_connection out)

unfoldable pub wg_stats_interface : WgController → Text
wg_stats_interface c = elim c.nm_connection [ some nm_conn ↦ nm_conn | none ↦ c.interface ]

-- `total_rx += rx; total_tx += tx`, in u64.
abbrev pub add_stats : ℕ × ℕ → ℕ → ℕ → ℕ × ℕ
add_stats (total_rx, total_tx) rx tx = ((total_rx + rx) % 2 ^ 64, (total_tx + tx) % 2 ^ 64)

add_parsed : ℕ × ℕ → Option ℕ → Option ℕ → ℕ × ℕ
add_parsed total (some rx) (some tx) = add_stats total rx tx
add_parsed total _ _ = total

-- A line counts if its second and third parts are numbers.
add_line : ℕ × ℕ → List Text → ℕ × ℕ
add_line total (key ∷ rx ∷ tx ∷ rest) =
    add_parsed total (parse_uint max_u64 rx) (parse_uint max_u64 tx)
add_line total _ = total

add_lines : ℕ × ℕ → List Text → ℕ × ℕ
add_lines total [] = total
add_lines total (line ∷ rest) = add_lines (add_line total (split 9 line)) rest

unfoldable pub parse_wg_transfer_output : Text → ℕ × ℕ
unfolding add_lines add_line add_parsed
parse_wg_transfer_output text = add_lines (0, 0) (lines text)

-- The peers' received and sent bytes, summed.
unfoldable pub sum_peers : ℕ × ℕ → List (ℕ × ℕ) → ℕ × ℕ
sum_peers total [] = total
sum_peers total ((rx, tx) ∷ peers) = sum_peers (add_stats total rx tx) peers

-- `device` is the kernel's answer to the netlink request for an interface, with the crate's parse of
-- the name: the peers' counters.
module _ (device : Text → Result (List (ℕ × ℕ))) where
  unfoldable pub get_transfer_stats : WgController → Result (ℕ × ℕ)
  get_transfer_stats c = do peers ← device (wg_stats_interface c); ok (sum_peers (0, 0) peers)

  -- The comparison with the last counters, and the update of the activity.
  note_activity : WgController → ℕ → ℕ → ℕ → WgController × Result Bool
  note_activity c now rx tx =
      if not (rx == c.last_rx_bytes) || not (tx == c.last_tx_bytes)
      then (record c { last_activity = some now; last_rx_bytes = rx; last_tx_bytes = tx }, ok true)
      else (c, ok false)

  unfoldable pub check_activity : WgController → ℕ → WgController × Result Bool
  unfolding note_activity
  check_activity c now = elim (get_transfer_stats c) [
    | ok (rx, tx) ↦ note_activity c now rx tx
    | err e ↦ (c, err e)
  ]

unfoldable pub idle_duration : WgController → ℕ → Option ℕ
idle_duration c now = elim c.last_activity [ some t ↦ some (now - t) | none ↦ none ]

unfoldable pub reset_activity : WgController → ℕ → WgController
reset_activity c now = record c { last_rx_bytes = 0; last_tx_bytes = 0; last_activity = some now }
