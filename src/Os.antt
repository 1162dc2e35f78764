-- ===== src/Os.antt =====
-- What the daemon takes from the system through `Command`: programs that are run with arguments,
-- over the state of the system.
pub mod Ran
use wg_ondemand.Base.{
  Bool, Option, none, some, List, Text, Result, ok, err, Error, Result-cases, ◌≡◌, inl, inr, arith,
}

-- `std::process::Output`, decoded by `from_utf8_lossy`.
pub record Output : Type 0 where
  pub success : Bool
  pub stdout : Text
  pub stderr : Text

-- `run s (program ∷ args)` is the state after the program, and `none` if it could not be started.
pub record Os : Type 1 where
  pub State : Type 0
  pub run : State → List Text → State × Option Output

-- A computation that may fail, over the system's state.
abbrev pub Io : Os → Type 0 → Type 0
Io O A = O.State → O.State × Result A

abbrev pub then_io : {A B : Type 0} (O : Os) → Io O A → (A → Io O B) → Io O B
then_io O m f s = let (s', r) = m s in elim r [ ok a ↦ f a s' | err e ↦ (s', err e) ]

-- `Command::new(…).args(…).output().await.context(e)?`
abbrev pub output : (O : Os) → List Text → Error → Io O Output
output O args e s =
    let (s', out) = O.run s args in elim out [ none ↦ (s', err e) | some o ↦ (s', ok o) ]

-- A chain that succeeds: its first part did, and so did what followed.
pub then_io-ok :
    {A B : Type 0} (O : Os) (m : Io O A) (f : A → Io O B) (s : O.State) (b : B)
    → (then_io O m f s).1 ≡ ok b
    → (a : A) × ((m s).1 ≡ ok a) × ((f a (m s).0).1 ≡ ok b)
then_io-ok O m f s b h = elim (Result-cases (m s).1) [
  | inl (a, e) ↦ (a, e, ground (arith, e, h))
  | inr (_, e) ↦ absurd (ground (arith, e, h))
]
