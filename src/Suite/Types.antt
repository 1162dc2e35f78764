-- ===== src/Suite/Types.antt =====
-- wg-ondemand/src/types.rs, `mod tests`: the states of the tunnel, and the fields of an event. What
-- the tests say of sizes and offsets is said of the event's bytes.
use wg_ondemand.Base.{
  ◌≡◌, refl, Bool, true, not, ◌&&◌, ◌==◌, List, [], ◌∷◌, length, all_pass, ℕ, suc, if◌then◌else◌,
}
use mathlib.Core.Bool.{decide}
use wg_ondemand.Types.{
  TrafficEvent, TunnelState, inactive, monitoring, activating, active, deactivating,
  TunnelState-discrete,
}
use wg_ondemand.Types.Wire.{write_event}

abbrev is_same : TunnelState → TunnelState → Bool
is_same s t = decide (TunnelState-discrete s t)

abbrev pub test_tunnel_state_transitions : Bool
test_tunnel_state_transitions = is_same inactive inactive && not (is_same inactive monitoring)

abbrev pub test_tunnel_state_distinct : Bool
test_tunnel_state_distinct =
    not (is_same inactive monitoring)
    && (not (is_same inactive activating)
        && (not (is_same inactive active)
            && (not (is_same inactive deactivating)
                && (not (is_same monitoring activating)
                    && (not (is_same monitoring active)
                        && (not (is_same monitoring deactivating)
                            && (not (is_same activating active)
                                && (not (is_same activating deactivating)
                                    && not (is_same active deactivating)))))))))

-- An event with the number 1 in some of its fields.
abbrev event : ℕ → ℕ → ℕ → ℕ → ℕ → TrafficEvent
event timestamp dest_ip dest_port protocol padding = record {
  timestamp = timestamp;
  dest_ip = dest_ip;
  dest_port = dest_port;
  protocol = protocol;
  padding = padding;
}

-- Where the first byte that is not 0 stands.
abbrev first_set : List ℕ → ℕ
first_set [] = 0
first_set (b ∷ bs) = let later = first_set bs in if b == 0 then suc later else 0

-- The size; the alignment is not modelled.
abbrev pub test_traffic_event_size : Bool
test_traffic_event_size = length (write_event (event 0 0 0 0 0)) == 16

-- `offset_of!`, as the place of the lowest byte of the field.
abbrev pub test_traffic_event_field_offsets : Bool
test_traffic_event_field_offsets =
    first_set (write_event (event 1 0 0 0 0)) == 0
    && (first_set (write_event (event 0 1 0 0 0)) == 8
        && (first_set (write_event (event 0 0 1 0 0)) == 12
            && (first_set (write_event (event 0 0 0 1 0)) == 14
                && first_set (write_event (event 0 0 0 0 1)) == 15)))

-- All of them pass.
tests_pass :
    all_pass (
      test_tunnel_state_transitions ∷ test_tunnel_state_distinct ∷ test_traffic_event_size
      ∷ test_traffic_event_field_offsets ∷ [])
    ≡ true
unfolding TunnelState-discrete decide write_event
tests_pass = refl
