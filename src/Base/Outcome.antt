-- ===== src/Base/Outcome.antt =====
-- `anyhow::Result`: a value, or an error. An error is named for the `bail!` or `context` that
-- makes its outermost message.
use mathlib.Core.Path.{◌≡◌, refl}
use mathlib.Core.Logic.{◌⊎◌, inl, inr}
use mathlib.Core.Bool.{Bool, true, false}
use mathlib.Core.Option.{Option, none, some}

pub data Error : Type 0 where
  invalid_cidr_format invalid_ip_address invalid_prefix_length prefix_too_long : Error
  ssid_in_both_lists empty_wg_interface zero_idle_timeout no_subnets too_many_subnets : Error
  invalid_cidr unreadable_config unparsable_config : Error
  empty_name invalid_characters : Error
  command_failed command_not_run no_gateway no_interface_addresses no_interface : Error
  no_device invalid_interface_name : Error
  dbus_failed invalid_utf8 : Error
  no_such_interface no_program no_map attach_failed detach_failed map_failed : Error
  state_dir_failed state_file_failed unreadable_program monitor_terminated build_failed : Error

pub data Result {ℓ} (A : Type ℓ) : Type ℓ where
  ok : A → Result A
  err : Error → Result A

-- `?`: an error ends the function.
infixl 5 ◌>>=◌ ◌>>◌
abbrev pub ◌>>=◌ {ℓ κ} : {B : Type ℓ} {C : Type κ} → Result B → (B → Result C) → Result C
err e >>= k = err e
ok b >>= k = k b

abbrev pub ◌>>◌ {ℓ} : {C : Type ℓ} → Result (Unit {0}) → Result C → Result C
first >> rest = first >>= λ _. rest

-- `.ok_or(e)` and `.context(e)` of an `Option`.
abbrev pub or_fail {ℓ} : {A : Type ℓ} → Option A → Error → Result A
or_fail none e = err e
or_fail (some a) e = ok a

-- `.context(e)` of a `Result`: the outermost message is `e`.
abbrev pub context {ℓ} : {A : Type ℓ} → Result A → Error → Result A
context (ok a) e = ok a
context (err _) e = err e

-- `ensure!(b, e)`, or `if !b { bail!(e) }`.
abbrev pub ensure : Bool → Error → Result (Unit {0})
ensure true e = ok tt
ensure false e = err e

pub Result-cases {ℓ} :
    {A : Type ℓ} (r : Result A) → ((a : A) × (r ≡ ok a)) ⊎ ((e : Error) × (r ≡ err e))
Result-cases (ok a) = inl (a, refl)
Result-cases (err e) = inr (e, refl)

abbrev pub is_ok {ℓ} : {A : Type ℓ} → Result A → Bool
is_ok (ok a) = true
is_ok (err e) = false

abbrev pub is_err {ℓ} : {A : Type ℓ} → Result A → Bool
is_err (ok a) = false
is_err (err e) = true
