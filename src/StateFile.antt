-- ===== src/StateFile.antt =====
-- wg-ondemand/src/state_file.rs: the file that tells other programs the daemon's state.
pub mod Lines
pub mod Report
use wg_ondemand.Base.{
  ℕ, Bool, Option, none, some, Text, [], ◌++◌, ◌∷◌, if◌then◌else◌, Result, ok, err,
  state_dir_failed, state_file_failed,
}
use wg_ondemand.Base.Str.{codes}
use wg_ondemand.Base.Num.{show}
use wg_ondemand.Types.{TunnelState, inactive, monitoring, activating, active, deactivating}

-- What the writer uses of the file system and of the clock, over the system's state. A call that
-- can fail says whether it was done; `now` is `none` for a clock before the epoch.
pub record Files (State : Type 0) : Type 0 where
  pub dir_exists : State → Bool
  pub create_dir_all : State → State × Bool
  pub now : State → Option ℕ
  pub write : State → Text → State × Bool
  pub remove_file : State → State

unfoldable pub state_str : TunnelState → Text
state_str inactive = codes "inactive"
state_str monitoring = codes "monitoring"
state_str activating = codes "activating"
state_str active = codes "connected"
state_str deactivating = codes "deactivating"

abbrev pub ssid_or_empty : Option Text → Text
ssid_or_empty none = []
ssid_or_empty (some ssid) = ssid

unfoldable pub content : TunnelState → Option Text → ℕ → Text
content state ssid timestamp =
    (codes "STATE=" ++ state_str state)
    ++ 10
      ∷ ((codes "SSID=" ++ ssid_or_empty ssid)
          ++ 10 ∷ ((codes "TIMESTAMP=" ++ show timestamp) ++ 10 ∷ []))

module _ {State : Type 0} (F : Files State) where
  timestamp : State → ℕ
  timestamp s = elim (F.now s) [ some n ↦ n | none ↦ 0 ]

  write_content : TunnelState → Option Text → State → State × Result (Unit {0})
  unfolding timestamp
  write_content state ssid s =
      let (s', done) = F.write s (content state ssid (timestamp s)) in
      (s', if done then ok tt else err state_file_failed)

  unfoldable pub write_state : TunnelState → Option Text → State → State × Result (Unit {0})
  unfolding write_content
  write_state state ssid s =
      if F.dir_exists s
      then write_content state ssid s
      else let (s', made) = F.create_dir_all s in
        if made then write_content state ssid s' else (s', err state_dir_failed)

  unfoldable pub cleanup : State → State
  cleanup s = F.remove_file s
