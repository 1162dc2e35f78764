-- ===== src/Daemon/Deadline.antt =====
-- When an unused tunnel is taken down: the timer ticks every minute.
use wg_ondemand.Base.{
  ℕ, zero, suc, ◌+◌, ◌*◌, ◌^◌, ◌-◌, ◌<◌, ◌≤◌, ◌≡◌, refl, ap, ◌∙◌, ◌⊎◌, inl, inr, true, some, List,
  [], ◌∷◌, ltb, ok, arith, Bool-cases,
}
use wg_ondemand.Types.{TunnelState, active, deactivating, is_active}
use wg_ondemand.Controller.{get_transfer_stats, idle_duration, bring_down}
use wg_ondemand.StateFile.{write_state}
use wg_ondemand.Controller.Activity.{check_activity-Quiet}
use wg_ondemand.State.{idle_timeout_reached}
use wg_ondemand.Daemon.{
  World, Daemon, Outcome, running, and_then, on_idle_tick, idle_check, on_command, send,
}
use wg_ondemand.Daemon.Loop.{Event, idle_tick, command, step, steps, daemon_of}
use wg_ondemand.Daemon.Packet.{and_then_end}
use wg_ondemand.Daemon.Idle.{deactivated, nothing_waits}

abbrev pub idle_check_interval_secs : ℕ
idle_check_interval_secs = 60

-- The k-th tick of a timer whose first tick is at `start`, in nanoseconds.
abbrev pub tick : ℕ → ℕ → ℕ
tick start k = start + k * (idle_check_interval_secs * 10 ^ 9)

-- So many ticks, each with the turn of the command branch that follows it.
abbrev pub ticks : {S : Type 0} → ℕ → ℕ → List (Event S)
ticks start zero = []
ticks start (suc k) = idle_tick start start ∷ command start ∷ ticks (tick start 1) k

module _ {W : World} where
  -- Active, with nothing to do, and a tunnel whose counters are those of the last check.
  pub record Unused (t : ℕ) (d : Daemon W) : Type 0 where
    pub on : d.state_manager.state ≡ active
    pub empty : d.state_queue ≡ []
    pub quiet :
        get_transfer_stats (W.device d.sys) d.wg_controller
        ≡ ok (d.wg_controller.last_rx_bytes, d.wg_controller.last_tx_bytes)
    pub used : d.wg_controller.last_activity ≡ some t

  abbrev limit : Daemon W → ℕ
  limit d = d.state_manager.idle_timeout * 10 ^ 9

  abbrev ringing : Daemon W → Daemon W
  ringing d = record d { state_queue = idle_timeout_reached ∷ [] }

  checked_same : (now t : ℕ) (d : Daemon W) → Unused t d → on_idle_tick now now d ≡ idle_check now d
  unfolding on_idle_tick
  checked_same now t d h =
      let same =
        check_activity-Quiet d.wg_controller (record { device = W.device d.sys; now = now })
          (inl h.quiet) in
      let e : is_active d.state_manager.state ≡ true = ground (arith, h.on) in
      rw (on_idle_tick, e) (ap (λ c. idle_check now (record d { wg_controller = c })) same)

  tick_cases :
      (now t : ℕ) (d : Daemon W)
      → Unused t d
      → ((limit d < now - t) × (on_idle_tick now now d ≡ running (ringing d)))
        ⊎ ((now - t ≤ limit d) × (on_idle_tick now now d ≡ running d))
  unfolding idle_check idle_duration send
  tick_cases now t d h = elim (Bool-cases (ltb (limit d) (now - t))) [
    | inl over ↦
        inl (ground (arith, over), checked_same now t d h ∙ ground (arith, over, h.used, h.empty))
    | inr within ↦
        inr (ground (arith, within), checked_same now t d h ∙ ground (arith, within, h.used))
  ]

  after_tick :
      (now : ℕ) (d d' : Daemon W) (es : List (Event W.os.State))
      → on_idle_tick now now d ≡ running d'
      → steps (idle_tick now now ∷ command now ∷ es) d ≡ and_then (on_command now d') (steps es)
  unfolding steps step
  after_tick now d d' es e = rw (and_then, e) refl

  -- A tick within the timeout changes nothing.
  tick_within :
      (now t : ℕ) (d : Daemon W) (es : List (Event W.os.State))
      → Unused t d
      → on_idle_tick now now d ≡ running d
      → steps (idle_tick now now ∷ command now ∷ es) d ≡ steps es d
  tick_within now t d es h e =
      after_tick now d d es e ∙ rw (and_then, nothing_waits now d h.empty) refl

  abbrev after : ℕ → ℕ → Daemon W → Daemon W
  after start k d = daemon_of (steps (ticks start k) d)

  abbrev state_after : ℕ → ℕ → Daemon W → TunnelState
  state_after start k d = (after start k d).state_manager.state

  -- The command that takes the tunnel down has been run, whatever has come of it, and the daemon is
  -- left Deactivating, with that state written to the state file.
  abbrev pub Ended : Daemon W → Daemon W → Type 0
  Ended d d' =
      (d'.state_manager.state ≡ deactivating)
      × (d'.sys
          ≡ (write_state W.files deactivating d.current_ssid
              (bring_down W.os d.wg_controller d.sys).0).0)

  -- One behind the timeout leads to the command.
  tick_over :
      (now t : ℕ) (d : Daemon W)
      → Unused t d
      → on_idle_tick now now d ≡ running (ringing d)
      → Ended d (after now 1 d)
  tick_over now t d h e =
      rw (after_tick now d (ringing d) [] e, and_then_end (on_command now (ringing d)))
        (deactivated now (ringing d) h.on refl)

  -- The first of some ticks is within the timeout, and the others come after it.
  later :
      (start t k : ℕ) (d : Daemon W)
      → Unused t d
      → on_idle_tick start start d ≡ running d
      → after start (suc k) d ≡ after (tick start 1) k d
  later start t k d h e =
      ap (λ (o : Outcome W). daemon_of o) (tick_within start t d (ticks (tick start 1) k) h e)

  later_state :
      (start t k : ℕ) (d : Daemon W)
      → Unused t d
      → on_idle_tick start start d ≡ running d
      → state_after start (suc k) d ≡ state_after (tick start 1) k d
  later_state start t k d h e = ap (λ (x : Daemon W). x.state_manager.state) (later start t k d h e)

  no_tick : (start : ℕ) (d : Daemon W) → state_after start 0 d ≡ d.state_manager.state
  unfolding steps
  no_tick start d = refl

  -- The tick at which the daemon ends the tunnel is the first one behind the timeout.
  abbrev pub TakesDown : ℕ → ℕ → ℕ → Daemon W → Type 0
  TakesDown start t m d =
      (limit d < tick start m - t)
      × Ended d (after start (suc m) d)
      × ((m ≡ 0)
          ⊎ ((k : ℕ) × (m ≡ suc k)
              × (tick start k - t ≤ limit d)
              × (tick start m - t ≤ limit d + idle_check_interval_secs * 10 ^ 9)
              × (state_after start (suc k) d ≡ active)))

  over-TakesDown :
      (start t : ℕ) (d : Daemon W)
      → Unused t d
      → limit d < start - t
      → on_idle_tick start start d ≡ running (ringing d)
      → TakesDown start t 0 d
  over-TakesDown start t d h over e = (omega arith, tick_over start t d h e, inl refl)

  suc-TakesDown :
      (start t m : ℕ) (d : Daemon W)
      → Unused t d
      → start - t ≤ limit d
      → on_idle_tick start start d ≡ running d
      → TakesDown (tick start 1) t m d
      → TakesDown start t (suc m) d
  suc-TakesDown start t m d h within e (over, down, before) = (
    omega arith,
    rw (later start t (suc m) d h e) down,
    elim before [
      | inl first ↦ inr (
        m,
        refl,
        omega arith,
        omega arith,
        later_state start t m d h e
            ∙ ap (λ k. state_after (tick start 1) k d) first
            ∙ no_tick (tick start 1) d
            ∙ h.on,
      )
      | inr (k, at, in_time, soon, stays) ↦ inr (
        m,
        refl,
        omega arith,
        omega arith,
        later_state start t m d h e ∙ ap (λ j. state_after (tick start 1) j d) at ∙ stays,
      )
    ],
  )

  -- An Active daemon with an empty channel, whose tunnel was used at time `t` for the last time and
  -- has the counters of the last check. The idle timer ticks every sixty seconds, each tick is
  -- followed by a turn of the command branch, and nothing else happens; and some tick is behind the
  -- timeout. Then there is a first tick behind the timeout, at which the command that takes the
  -- tunnel down is run, whatever comes of it, and the daemon is left Deactivating, with that state
  -- in the state file. If it is not the first tick at all, it is at most sixty seconds behind the
  -- timeout, and at the tick before it the time was within the timeout and the daemon stayed
  -- Active.
  pub deactivated_in_time :
      (n start t : ℕ) (d : Daemon W)
      → Unused t d
      → d.state_manager.idle_timeout * 10 ^ 9 < tick start n - t
      → (m : ℕ) × (m ≤ n) × TakesDown start t m d
  deactivated_in_time zero start t d h late = elim (tick_cases start t d h) [
    | inl (over, e) ↦ (0, omega arith, over-TakesDown start t d h over e)
    | inr (within, e) ↦ absurd (omega arith)
  ]
  deactivated_in_time (suc n) start t d h late = elim (tick_cases start t d h) [
    | inl (over, e) ↦ (0, omega arith, over-TakesDown start t d h over e)
    | inr (within, e) ↦
        let (m, le, takes) = deactivated_in_time n (tick start 1) t d h (omega arith) in
        (suc m, omega arith, suc-TakesDown start t m d h within e takes)
  ]
