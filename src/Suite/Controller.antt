-- ===== src/Suite/Controller.antt =====
-- wg-ondemand/src/wg_controller.rs, `mod tests`: names, and the construction of a controller.
mod Transfer
use wg_ondemand.Base.{
  ℕ, ◌≡◌, refl, Bool, true, false, not, ◌&&◌, ◌==◌, Option, none, some, List, [], ◌∷◌, ◌++◌, Text,
  text_eq, is_some, ok, err, is_ok, is_err, all_pass, leb, ltb,
}
use wg_ondemand.Base.Str.{codes}
use wg_ondemand.Controller.{WgController, validate_name, idle_duration, reset_activity}
use wg_ondemand.Controller as Controller

-- `WgController::new("wg0", …).unwrap()` and what is asked of it.
abbrev with_controller : Option Text → (WgController → Bool) → Bool
with_controller nm_connection check = elim (Controller.new (codes "wg0") nm_connection) [
  | ok controller ↦ check controller
  | err e ↦ false
]

abbrev pub test_wg_controller_creation : Bool
test_wg_controller_creation = with_controller none (λ c.
    text_eq c.interface (codes "wg0")
    && (c.last_rx_bytes == 0 && (c.last_tx_bytes == 0 && not (is_some c.last_activity))))

abbrev pub test_wg_controller_with_nm_connection : Bool
test_wg_controller_with_nm_connection =
    with_controller (some (codes "my-vpn")) (λ c. text_eq c.interface (codes "wg0"))

-- At any time of the question.
abbrev pub test_idle_duration_no_activity : ℕ → Bool
test_idle_duration_no_activity now = with_controller none (λ c. not (is_some (idle_duration c now)))

-- At the times of the activity and of the question, in nanoseconds.
abbrev pub test_idle_duration_with_activity : ℕ → ℕ → Bool
test_idle_duration_with_activity start now = with_controller none (λ c.
    elim (idle_duration (record c { last_activity = some start }) now) [
      | none ↦ false
      | some idle ↦ leb 100000000 idle && ltb idle 200000000
    ])

-- At the times of the reset and of the question.
abbrev pub test_reset_activity : ℕ → ℕ → Bool
test_reset_activity start now = with_controller none (λ c.
    let c' = reset_activity (record c { last_rx_bytes = 1000; last_tx_bytes = 2000 }) start in
    c'.last_rx_bytes == 0
    && (c'.last_tx_bytes == 0
        && (is_some c'.last_activity
            && elim (idle_duration c' now) [ none ↦ false | some idle ↦ ltb idle 100000000 ])))

abbrev pub test_validate_name_valid : Bool
test_validate_name_valid =
    is_ok (validate_name (codes "wg0"))
    && (is_ok (validate_name (codes "wlan0"))
        && (is_ok (validate_name (codes "my-vpn"))
            && (is_ok (validate_name (codes "my_vpn"))
                && is_ok (validate_name (codes "WireGuard-VPN_123")))))

abbrev pub test_validate_name_invalid_special_chars : Bool
test_validate_name_invalid_special_chars =
    is_err (validate_name (codes "wg0; rm -rf /"))
    && (is_err (validate_name (codes "wg0 && echo pwned"))
        && (is_err (validate_name (codes "wg0|cat /etc/passwd"))
            && (is_err (validate_name (codes "$(malicious)"))
                && (is_err (validate_name (codes "`whoami`"))
                    && (is_err (validate_name (codes "wg0$VAR"))
                        && (is_err (validate_name (codes "wg0'test"))
                            && (is_err (validate_name (codes "wg0\"test"))
                                && (is_err (validate_name (codes "wg0\ntest"))
                                    && (is_err (validate_name (codes "wg0/test"))
                                        && is_err (validate_name (codes "wg0\\test")))))))))))

abbrev pub test_validate_name_empty : Bool
test_validate_name_empty = is_err (validate_name ([]))

abbrev pub test_wg_controller_creation_invalid_interface : Bool
test_wg_controller_creation_invalid_interface =
    is_err (Controller.new (codes "wg0; rm -rf /") none)
    && is_err (Controller.new (codes "wg0 && echo pwned") none)

abbrev pub test_wg_controller_creation_invalid_nm_connection : Bool
test_wg_controller_creation_invalid_nm_connection =
    is_err (Controller.new (codes "wg0") (some (codes "vpn; malicious")))
    && is_err (Controller.new (codes "wg0") (some (codes "$(echo pwned)")))

-- All of them pass.
tests_pass :
    all_pass (
      test_validate_name_valid
      ∷ test_validate_name_invalid_special_chars
      ∷ test_validate_name_empty
      ∷ test_wg_controller_creation_invalid_interface
      ∷ test_wg_controller_creation_invalid_nm_connection
      ∷ test_wg_controller_creation
      ∷ test_wg_controller_with_nm_connection
      ∷ test_idle_duration_no_activity 5
      ∷ test_idle_duration_with_activity 7 100000107
      ∷ test_reset_activity 7 90
      ∷ [])
    ≡ true
unfolding validate_name Controller.new text_eq idle_duration reset_activity
tests_pass = refl
