-- ===== src/Xtask.antt =====
-- xtask/src/main.rs: the build of the eBPF program by cargo.
use wg_ondemand.Base.{
  ◌≡◌, ◌↔◌, Bool, true, Option, none, some, List, [], ◌∷◌, ◌++◌, Text, if◌then◌else◌, Result, ok,
  err, ensure, command_not_run, build_failed, arith, Option-cases, inl, inr,
}
use wg_ondemand.Base.Str.{codes}

-- `std::process::Command`: the program, what is added to its environment, and its arguments.
pub record Command : Type 0 where
  pub program : Text
  pub env : List (Text × Text)
  pub args : List Text

-- The subcommand of the command line, with its flag.
pub data Args : Type 0 where
  build_ebpf_args : Bool → Args

unfoldable pub cargo_build : Bool → Command
cargo_build release = record {
  program = codes "cargo";
  env = (codes "RUSTUP_TOOLCHAIN", codes "nightly") ∷ [];
  args =
      (codes "build"
        ∷ codes "--package"
        ∷ codes "wg-ondemand-ebpf"
        ∷ codes "--target"
        ∷ codes "bpfel-unknown-none"
        ∷ codes "-Z"
        ∷ codes "build-std=core"
        ∷ [])
      ++ (if release then codes "--release" ∷ [] else []);
}

-- `status` is the system's: the state after the command and whether it succeeded, or `none` if it
-- could not be started.
module _ {S : Type 0} (status : S → Command → S × Option Bool) where
  build_result : Option Bool → Result (Unit {0})
  build_result none = err command_not_run
  build_result (some success) = ensure success build_failed

  unfoldable pub build_ebpf : Bool → S → S × Result (Unit {0})
  unfolding build_result
  build_ebpf release s = let (s', ran) = status s (cargo_build release) in (s', build_result ran)

  unfoldable pub main : Args → S → S × Result (Unit {0})
  main (build_ebpf_args release) s = build_ebpf release s

  -- The helper succeeds exactly if cargo could be started and did.
  pub main_iff :
      (release : Bool) (s : S)
      → ((main (build_ebpf_args release) s).1 ≡ ok tt)
        ↔ ((status s (cargo_build release)).1 ≡ some true)
  unfolding main build_ebpf
  main_iff release s = elim (Option-cases (status s (cargo_build release)).1) [
    | inl e ↦ ((λ h. absurd (ground (arith, e, h))), (λ h. absurd (ground (arith, e, h))))
    | inr (success, e) ↦ ((λ h. ground (arith, e, h)), (λ h. ground (arith, e, h)))
  ]
