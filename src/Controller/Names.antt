-- ===== src/Controller/Names.antt =====
-- The names that the controller lets into a command line.
use wg_ondemand.Base.{
  ℕ, ◌≤◌, ◌≡◌, refl, ◌≢◌, ◌↔◌, ◌⊎◌, true, Option, none, some, [], ◌∷◌, arith, Text, All, ok,
}
use wg_ondemand.Base.Str.{codes}
use wg_ondemand.Controller.{
  WgController, is_name_char, all_name_chars, validate_name, validate_connection, new,
  tunnel_command, wg_stats_interface, show_link,
}

-- An ASCII letter, a digit, a hyphen or an underscore.
abbrev pub NameChar : ℕ → Type 0
NameChar c =
    ((b'0' ≤ c) × (c ≤ b'9'))
    ⊎ ((b'A' ≤ c) × (c ≤ b'Z'))
    ⊎ ((b'a' ≤ c) × (c ≤ b'z'))
    ⊎ (c ≡ b'-')
    ⊎ (c ≡ b'_')

abbrev pub SafeName : Text → Type 0
SafeName s = (s ≢ []) × All NameChar s

is_name_char_iff : (c : ℕ) → (is_name_char c ≡ true) ↔ NameChar c
is_name_char_iff c = ground arith

all_name_chars_iff : (s : Text) → (all_name_chars s ≡ true) ↔ All NameChar s
unfolding all_name_chars
all_name_chars_iff [] = (λ _. tt, λ _. refl)
all_name_chars_iff (c ∷ s) =
    let rest = all_name_chars_iff s in
    (
      λ h. ((is_name_char_iff c).0 (ground (arith, h)), rest.0 (ground (arith, h))),
      λ h. ground (arith, (is_name_char_iff c).1 h.0, rest.1 h.1),
    )

-- A name is accepted exactly when it is not empty and has no other character than these.
pub validate_name_iff : (name : Text) → (validate_name name ≡ ok tt) ↔ SafeName name
unfolding validate_name
validate_name_iff [] = (λ h. absurd (cc), λ h. absurd (h.0 refl))
validate_name_iff (c ∷ s) =
    let chars = all_name_chars_iff (c ∷ s) in
    (λ h. ((λ e. absurd (cc)), chars.0 (ground (arith, h))), λ h. ground (arith, chars.1 h.1))

new-names :
    (interface : Text) (nm : Option Text) (c : WgController)
    → new interface nm ≡ ok c
    → (c.interface ≡ interface)
      × (c.nm_connection ≡ nm)
      × (validate_name interface ≡ ok tt)
      × (validate_connection nm ≡ ok tt)
unfolding new
new-names interface nm c h = ground arith

fixed_name : (name : Text) → validate_name name ≡ ok tt → SafeName name
fixed_name name h = (validate_name_iff name).0 h

show_link-SafeName : (c : WgController) → SafeName c.interface → All SafeName (show_link c)
unfolding validate_name
show_link-SafeName c safe = (
  fixed_name (codes "ip") refl,
  (fixed_name (codes "link") refl, (fixed_name (codes "show") refl, (safe, tt))),
)

-- The arguments of the commands that a created controller runs, to bring the tunnel up or down, which
-- is the verb, and to see whether its interface is there, are safe names; and so is the name of the
-- device whose counters it asks for.
pub tunnel_command-SafeName :
    (interface : Text) (nm : Option Text) (c : WgController) (verb : Text)
    → new interface nm ≡ ok c
    → SafeName verb
    → All SafeName (tunnel_command verb c)
      × All SafeName (show_link c)
      × SafeName (wg_stats_interface c)
unfolding wg_stats_interface tunnel_command validate_name
tunnel_command-SafeName interface none c verb h v =
    let (same, no_nm, fine, _) = new-names interface none c h in
    let safe : SafeName c.interface = rw same ((validate_name_iff interface).0 fine) in
    rw no_nm
      ((fixed_name (codes "wg-quick") refl, (v, (safe, tt))), show_link-SafeName c safe, safe)
tunnel_command-SafeName interface (some conn) c verb h v =
    let (same, nm, here, fine) = new-names interface (some conn) c h in
    let safe = (validate_name_iff conn).0 (unfold validate_connection in fine) in
    let own : SafeName c.interface = rw same ((validate_name_iff interface).0 here) in
    rw nm (
      (fixed_name (codes "nmcli") refl, (fixed_name (codes "connection") refl, (v, (safe, tt)))),
      show_link-SafeName c own,
      safe,
    )
