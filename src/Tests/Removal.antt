-- ===== src/Tests/Removal.antt =====
-- The routes' removal over a table that routes are added to and deleted from.
use wg_ondemand.Base.{
  ◌≡◌, refl, ap, sym, ◌∙◌, ◌⊎◌, inl, inr, Bool-cases, Bool, true, false, not, ◌&&◌, none, some,
  Option, List, [], ◌∷◌, Text, text_eq, text_eq_iff, contains, arith, if◌then◌else◌,
}
use wg_ondemand.Base.Str.{codes}
use wg_ondemand.Base.Ipv4.{Ipv4Addr}
use wg_ondemand.Os.{Os, Output}
use wg_ondemand.Routes.{
  add_routes, remove_routes, show_routes, show_route, add_route, del_route, RouteManager,
}
use wg_ondemand.Routes.Table.{RouteTable}
use wg_ondemand.Routes.Deletion.{Privileged, Deletes, deleted, succeeds}
use wg_ondemand.Routes.Removal.{add_then_remove}

abbrev pub answer : Bool → Option Output
answer success = some (record { success = success; stdout = []; stderr = [] })

unfoldable pub without : Text → List Text → List Text
without subnet [] = []
without subnet (r ∷ routes) =
    let rest = without subnet routes in if text_eq subnet r then rest else r ∷ rest

-- `ip route show` and `ip route del` of a subnet, `ip route show dev`, and `ip route add`.
abbrev pub run_routes : List Text → List Text → List Text × Option Output
run_routes routes (ip ∷ route ∷ verb ∷ subnet ∷ []) =
    if text_eq (codes "del") verb
    then (without subnet routes, answer (contains routes subnet))
    else (routes, answer (contains routes subnet))
run_routes routes (ip ∷ route ∷ show ∷ dev ∷ interface ∷ []) = (
  routes,
  some
      (record { success = true; stdout = codes "default via 192.168.1.1 proto dhcp"; stderr = [] }),
)
run_routes routes (ip ∷ route ∷ verb ∷ subnet ∷ via ∷ gateway ∷ dev ∷ interface ∷ []) =
    (subnet ∷ routes, answer true)
run_routes routes _ = (routes, answer false)

abbrev pub kernel : Os
kernel = record { State = List Text; run = run_routes }

pub shown :
    (s : List Text) (subnet : Text)
    → run_routes s (show_route subnet) ≡ (s, answer (contains s subnet))
unfolding show_route text_eq
shown s subnet = refl

pub shown_all : (s : List Text) (interface : Text) → (run_routes s (show_routes interface)).0 ≡ s
unfolding show_routes
shown_all s interface = refl

pub added :
    (s : List Text) (subnet : Text) (gateway : Ipv4Addr) (interface : Text)
    → run_routes s (add_route subnet gateway interface) ≡ (subnet ∷ s, answer true)
unfolding add_route
added s subnet gateway interface = refl

pub takes_away :
    (s : List Text) (subnet : Text)
    → run_routes s (del_route subnet) ≡ (without subnet s, answer (contains s subnet))
unfolding del_route text_eq
takes_away s subnet = refl

pub without_missing :
    (subnet : Text) (s : List Text) → contains s subnet ≡ false → without subnet s ≡ s
unfolding without contains
without_missing subnet [] missing = refl
without_missing subnet (q ∷ s) missing = elim (Bool-cases (text_eq subnet q)) [
  | inl same ↦
      absurd
        (ground (arith, missing, (text_eq_iff q subnet).1 (sym ((text_eq_iff subnet q).0 same))))
  | inr other ↦ ground (arith, other, without_missing subnet s (ground (arith, missing)))
]

pub fails_missing :
    (s : List Text) (subnet r : Text)
    → succeeds (run_routes s (del_route subnet)).1 ≡ false
    → contains (run_routes s (del_route subnet)).0 r ≡ contains s r
fails_missing s subnet r failed =
    let missing : contains s subnet ≡ false = rw (takes_away s subnet) at failed in
    rw (takes_away s subnet) (ap (λ t. contains t r) (without_missing subnet s missing))

pub deletes_there :
    (s : List Text) (subnet : Text)
    → contains s subnet ≡ true
    → succeeds (run_routes s (del_route subnet)).1 ≡ true
deletes_there s subnet here = rw (takes_away s subnet) here

pub without_own :
    (subnet r : Text) (s : List Text)
    → text_eq subnet r ≡ false
    → contains (without subnet s) r ≡ contains s r
unfolding without contains
without_own subnet r [] other = refl
without_own subnet r (q ∷ s) other = elim (Bool-cases (text_eq subnet q)) [
  | inl same ↦
      let differs = ap (λ x. text_eq x r) (sym ((text_eq_iff subnet q).0 same)) ∙ other in
      ground (arith, same, differs, without_own subnet r s other)
  | inr kept ↦ ground (arith, kept, without_own subnet r s other)
]

pub without_takes : (subnet : Text) (s : List Text) → contains (without subnet s) subnet ≡ false
unfolding without contains
without_takes subnet [] = refl
without_takes subnet (q ∷ s) = elim (Bool-cases (text_eq subnet q)) [
  | inl same ↦ ground (arith, same, without_takes subnet s)
  | inr kept ↦ elim (Bool-cases (text_eq q subnet)) [
    | inl turned ↦
        let same = (text_eq_iff subnet q).1 (sym ((text_eq_iff q subnet).0 turned)) in
        absurd (ground (arith, kept, same))
    | inr other ↦ ground (arith, kept, other, without_takes subnet s)
  ]
]

pub cons_own :
    (subnet r : Text) (s : List Text)
    → text_eq subnet r ≡ false
    → contains (subnet ∷ s) r ≡ contains s r
unfolding contains
cons_own subnet r s other = ground (arith, other)

pub cons_present : (s : List Text) (subnet : Text) → contains (subnet ∷ s) subnet ≡ true
unfolding contains
cons_present s subnet = ground (arith, (text_eq_iff subnet subnet).1 refl)

pub cons_keeps :
    (s : List Text) (subnet r : Text) → contains s r ≡ true → contains (subnet ∷ s) r ≡ true
unfolding contains
cons_keeps s subnet r here = ground (arith, here)

pub shown_present :
    (s : List Text) (subnet : Text) (out : Output)
    → (run_routes s (show_route subnet)).1 ≡ some out
    → out.success ≡ true
    → contains s subnet ≡ true
unfolding show_route text_eq
shown_present s subnet out e done = ground (arith, e, done)

pub add_runs :
    (s : List Text) (subnet : Text) (gateway : Ipv4Addr) (interface : Text)
    → ¬ ((run_routes s (add_route subnet gateway interface)).1 ≡ none)
unfolding add_route
add_runs s subnet gateway interface e = ground (arith, e)

pub add_succeeds :
    (s : List Text) (subnet : Text) (gateway : Ipv4Addr) (interface : Text) (out : Output)
    → (run_routes s (add_route subnet gateway interface)).1 ≡ some out
    → ¬ (out.success ≡ false)
unfolding add_route
add_succeeds s subnet gateway interface out e failed = ground (arith, e, failed)

abbrev pub table : RouteTable kernel
table = record {
  present = λ s r. contains s r;
  show_all_keeps = λ s interface r. ap (λ t. contains t r) (shown_all s interface);
  show_keeps = λ s subnet r. ap (λ t. contains t.0 r) (shown s subnet);
  show_finds = λ s subnet gateway interface out e done _ _. shown_present s subnet out e done;
  add_puts = λ s subnet gateway interface out e done.
      rw (added s subnet gateway interface) (cons_present s subnet);
  add_keeps = λ s subnet gateway interface r here.
      rw (added s subnet gateway interface) (cons_keeps s subnet r here);
}

abbrev pub privileged : Privileged kernel table
privileged = record {
  add_own = λ s subnet gateway interface r other.
      rw (added s subnet gateway interface) (cons_own subnet r s other);
  add_not_run = λ s subnet gateway interface r e. absurd (add_runs s subnet gateway interface e);
  add_fails = λ s subnet gateway interface r out e failed.
      absurd (add_succeeds s subnet gateway interface out e failed);
  del_takes = λ s subnet done. rw (takes_away s subnet) (without_takes subnet s);
  del_fails = fails_missing;
  del_own = λ s subnet r other. rw (takes_away s subnet) (without_own subnet r s other);
}

abbrev pub deletes : Deletes kernel table
deletes = record { succeed = deletes_there }

abbrev pub manager : RouteManager
manager = record {
  interface = codes "wlan0";
  gateway = some (record { o0 = 192; o1 = 168; o2 = 1; o3 = 1 });
  active_routes = [];
}

abbrev subnets : List Text
subnets = codes "10.1.0.0/16" ∷ codes "10.2.0.0/16" ∷ []

-- A table that has one of the two subnets, and another.
abbrev pub routes : List Text
routes = codes "10.2.0.0/16" ∷ codes "10.3.0.0/16" ∷ []

add_then_remove_example :
    let (s', m', r) = add_routes kernel subnets manager routes in
    let (s'', m'') = remove_routes kernel (λ xs. xs) m' s' in
    let r = codes "10.2.0.0/16" in
    let active = contains m'.active_routes r in
    ((contains s'' r ≡ (contains routes r && not active))
      ⊎ ((active ≡ true)
          × (deleted kernel m'.active_routes s' r ≡ false)
          × (contains s'' r ≡ true)))
    × ((active && not (contains subnets r)) ≡ false)
    × (m''.active_routes ≡ [])
add_then_remove_example =
    add_then_remove kernel table privileged (λ xs. xs) subnets manager routes (codes "10.2.0.0/16")
      (λ xs x. refl) refl
