-- ===== src/Types/Wire.antt =====
-- The sixteen bytes of a `TrafficEvent`: the `#[repr(C)]` layout, little end first, that
-- wg-ondemand-ebpf/src/main.rs writes and wg-ondemand/src/main.rs reads.
use native.Mathlib.Nat.{pow-suc}
use wg_ondemand.Base.{
  ℕ, zero, suc, ◌+◌, ◌*◌, ◌/◌, ◌%◌, ◌^◌, ◌<◌, ◌≡◌, refl, List, [], ◌∷◌, ◌++◌, arith, length, take,
  drop,
}
use wg_ondemand.Types.{TrafficEvent}

-- The bytes of a number, the lowest first.
le_bytes : ℕ → ℕ → List ℕ
le_bytes zero n = []
le_bytes (suc k) n = n % 256 ∷ le_bytes k (n / 256)

of_le_bytes : List ℕ → ℕ
of_le_bytes [] = 0
of_le_bytes (b ∷ bs) = b + 256 * of_le_bytes bs

-- `core::mem::size_of::<TrafficEvent>()`
abbrev pub size_of_event : ℕ
size_of_event = 16

-- `write_unaligned(entry, event)`
unfoldable pub write_event : TrafficEvent → List ℕ
unfolding le_bytes
write_event e =
    le_bytes 8 e.timestamp
    ++ (le_bytes 4 e.dest_ip
        ++ (le_bytes 2 e.dest_port ++ (le_bytes 1 e.protocol ++ le_bytes 1 e.padding)))

-- `read_unaligned(data)`
unfoldable pub read_event : List ℕ → TrafficEvent
unfolding of_le_bytes
read_event bytes = record {
  timestamp = of_le_bytes (take 8 bytes);
  dest_ip = of_le_bytes (take 4 (drop 8 bytes));
  dest_port = of_le_bytes (take 2 (drop 12 bytes));
  protocol = of_le_bytes (take 1 (drop 14 bytes));
  padding = of_le_bytes (take 1 (drop 15 bytes));
}

-- The values that the fields' types hold.
pub record IsEvent (e : TrafficEvent) : Type 0 where
  pub timestamp_u64 : e.timestamp < 2 ^ 64
  pub dest_ip_u32 : e.dest_ip < 2 ^ 32
  pub dest_port_u16 : e.dest_port < 2 ^ 16
  pub protocol_u8 : e.protocol < 2 ^ 8
  pub padding_u8 : e.padding < 2 ^ 8

of_le_bytes-le_bytes : (k n : ℕ) → n < 256 ^ k → of_le_bytes (le_bytes k n) ≡ n
unfolding le_bytes of_le_bytes
of_le_bytes-le_bytes zero n h = omega arith
of_le_bytes-le_bytes (suc k) n h =
    omega (arith, of_le_bytes-le_bytes k (n / 256) (omega (arith, pow-suc 256 k)))

-- An event whose fields fit their widths is written as sixteen bytes, and what the daemon reads from
-- them is the event.
pub read_event-write_event :
    (e : TrafficEvent)
    → IsEvent e
    → (length (write_event e) ≡ size_of_event) × (read_event (write_event e) ≡ e)
unfolding write_event read_event
read_event-write_event e h = (
  refl,
  λ i. record {
    timestamp = of_le_bytes-le_bytes 8 e.timestamp h.timestamp_u64 i;
    dest_ip = of_le_bytes-le_bytes 4 e.dest_ip h.dest_ip_u32 i;
    dest_port = of_le_bytes-le_bytes 2 e.dest_port h.dest_port_u16 i;
    protocol = of_le_bytes-le_bytes 1 e.protocol h.protocol_u8 i;
    padding = of_le_bytes-le_bytes 1 e.padding h.padding_u8 i;
  },
)
