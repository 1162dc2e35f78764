-- ===== src/Os/Ran.antt =====
-- What the system's state can become while the daemon runs programs, and nothing else happens.
use wg_ondemand.Base.{
  List, Text, Result, Error, Option-cases, Result-cases, ◌≡◌, refl, ◌∙◌, inl, inr,
}
use wg_ondemand.Os.{Os, Io, Output, output, then_io}

-- The second state is reached from the first by running programs, with arguments as `A` says.
pub data Ran (O : Os) (A : List Text → Type 0) (s : O.State) : O.State → Type 0 where
  unmoved : Ran O A s s
  ran : {t : O.State} → Ran O A s t → (args : List Text) → A args → Ran O A s (O.run t args).0

-- Whatever the programs.
abbrev pub AnyProgram : List Text → Type 0
AnyProgram args = Unit

module _ {O : Os} {A : List Text → Type 0} where
  pub Ran-any : {s t : O.State} → Ran O A s t → Ran O AnyProgram s t
  Ran-any unmoved = unmoved
  Ran-any (ran first args a) = ran (Ran-any first) args tt

  pub Ran-trans : {s t u : O.State} → Ran O A s t → Ran O A t u → Ran O A s u
  Ran-trans first unmoved = first
  Ran-trans first (ran next args a) = ran (Ran-trans first next) args a

  -- What none of the programs touches is the same afterwards.
  pub Ran-keeps :
      {B : Type 0} (f : O.State → B) {s t : O.State}
      → ((u : O.State) (args : List Text) → A args → f (O.run u args).0 ≡ f u)
      → Ran O A s t
      → f t ≡ f s
  Ran-keeps f keeps unmoved = refl
  Ran-keeps f keeps (ran {t = u} first args a) = keeps u args a ∙ Ran-keeps f keeps first

  pub output-Ran :
      (args : List Text) (a : A args) (e : Error) (s : O.State) → Ran O A s (output O args e s).0
  output-Ran args a e s = elim (Option-cases (O.run s args).1) [
    | inl none_out ↦ rw (none_out, output) (ran unmoved args a)
    | inr (out, some_out) ↦ rw (some_out, output) (ran unmoved args a)
  ]

  pub then_io-Ran :
      {B C : Type 0} (m : Io O B) (f : B → Io O C) (s : O.State)
      → Ran O A s (m s).0
      → ((b : B) (t : O.State) → Ran O A t (f b t).0)
      → Ran O A s (then_io O m f s).0
  then_io-Ran m f s first next = elim (Result-cases (m s).1) [
    | inl (b, e) ↦ rw (e, then_io) (Ran-trans first (next b (m s).0))
    | inr (_, e) ↦ rw (e, then_io) first
  ]

  -- A program is run, and its output is only read.
  pub reads-Ran :
      {B : Type 0} (args : List Text) (a : A args) (e : Error) (f : Output → Result B) (s : O.State)
      → Ran O A s (then_io O (output O args e) (λ out t. (t, f out)) s).0
  reads-Ran args a e f s =
      then_io-Ran (output O args e) (λ out t. (t, f out)) s (output-Ran args a e s)
        (λ out t. unmoved)
