-- ===== src/StateFile/Report.antt =====
-- What another program reads in the state file.
use wg_ondemand.Base.{◌∙◌, ℕ, ◌≡◌, ◌⊎◌, inl, inr, true, Option, some, List, Text, Bool-cases}
use wg_ondemand.Os.{Os}
use wg_ondemand.Os.Ran.{Ran, AnyProgram, Ran-keeps}
use wg_ondemand.Types.{TunnelState}
use wg_ondemand.StateFile.{Files, content, timestamp, write_content, write_state}

-- The text of the file, in a state of the system. The daemon's programs leave it alone, the directory
-- is there or can be made, and a write is done and puts its text there.
pub record Report (O : Os) (F : Files O.State) : Type 0 where
  pub shown : O.State → Option Text
  pub run_keeps : (s : O.State) (args : List Text) → shown (O.run s args).0 ≡ shown s
  pub dir_ready : (s : O.State) → (F.dir_exists s ≡ true) ⊎ ((F.create_dir_all s).1 ≡ true)
  pub write_shows : (s : O.State) (text : Text) → shown (F.write s text).0 ≡ some text

module _ {O : Os} {F : Files O.State} (V : Report O F) where
  pub Ran-shown : {s t : O.State} → Ran O AnyProgram s t → V.shown t ≡ V.shown s
  Ran-shown runs = Ran-keeps V.shown (λ s args any. V.run_keeps s args) runs

  -- A written state is shown, with some time.
  pub write_state-shown :
      (state : TunnelState) (ssid : Option Text) (s : O.State)
      → (t : ℕ) × (V.shown (write_state F state ssid s).0 ≡ some (content state ssid t))
  unfolding write_state write_content
  write_state-shown state ssid s = elim (Bool-cases (F.dir_exists s)) [
    | inl there ↦ let t = timestamp F s in (t, rw (there) (V.write_shows s (content state ssid t)))
    | inr missing ↦ elim (V.dir_ready s) [
      | inl there ↦ absurd (cc (there, missing))
      | inr made ↦
          let s' = (F.create_dir_all s).0 in
          let t = timestamp F s' in
          (t, rw (missing, made) (V.write_shows s' (content state ssid t)))
    ]
  ]

module _ {State : Type 0} (F : Files State) where
  -- What neither the directory nor the write touches is the same after a written state.
  pub write_state-keeps :
      {A : Type 0} (f : State → A) (state : TunnelState) (ssid : Option Text) (s : State)
      → ((u : State) → f (F.create_dir_all u).0 ≡ f u)
      → ((u : State) (text : Text) → f (F.write u text).0 ≡ f u)
      → f (write_state F state ssid s).0 ≡ f s
  unfolding write_state write_content
  write_state-keeps f state ssid s dir_keeps write_keeps = elim (Bool-cases (F.dir_exists s)) [
    | inl there ↦ rw (there) (write_keeps s (content state ssid (timestamp F s)))
    | inr missing ↦
        let s' = (F.create_dir_all s).0 in
        elim (Bool-cases (F.create_dir_all s).1) [
          | inl made ↦
              rw (missing, made)
                (write_keeps s' (content state ssid (timestamp F s')) ∙ dir_keeps s)
          | inr failed ↦ rw (missing, failed) (dir_keeps s)
        ]
  ]
