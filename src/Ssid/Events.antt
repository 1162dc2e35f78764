-- ===== src/Ssid/Events.antt =====
-- What the monitor reports over a sequence of signals.
use wg_ondemand.Base.{
  ◌≡◌, refl, ◌∙◌, inl, inr, Bool, true, false, List, [], ◌∷◌, ◌++◌, All, ok, err, Result-cases,
}
use wg_ondemand.Ssid.{
  NetworkEvent, connected_to_target, disconnected, SsidMonitor, Signal, Bus, is_connected_to_target,
  events_of, monitor_loop,
}

-- Connections and disconnections take turns; the first is a connection if none was there before.
abbrev pub Alternates : Bool → List NetworkEvent → Type 0
Alternates was [] = Unit
Alternates was (connected_to_target ssid ∷ es) = (was ≡ false) × Alternates true es
Alternates was (disconnected ∷ es) = (was ≡ true) × Alternates false es

-- Whether a listener that follows the events takes itself for connected.
abbrev pub follow : Bool → List NetworkEvent → Bool
follow was [] = was
follow was (connected_to_target ssid ∷ es) = follow true es
follow was (disconnected ∷ es) = follow false es

-- The last check that succeeded.
abbrev pub last_check : SsidMonitor → Bool → List Signal → Bool
last_check m was [] = was
last_check m was (s ∷ signals) = elim (is_connected_to_target m s.checked) [
  | ok c ↦ last_check m c signals
  | err _ ↦ last_check m was signals
]

events_of-Alternates :
    (c was : Bool) (bus : Bus) (es : List NetworkEvent)
    → Alternates c es
    → Alternates was (events_of c was bus ++ es)
      × (follow was (events_of c was bus ++ es) ≡ follow c es)
unfolding events_of
events_of-Alternates true true bus es h = (h, refl)
events_of-Alternates true false bus es h = ((refl, h), refl)
events_of-Alternates false true bus es h = ((refl, h), refl)
events_of-Alternates false false bus es h = (h, refl)

-- The events take turns, and whoever follows them knows what the last successful check found.
pub monitor_loop_lem :
    (m : SsidMonitor) (was : Bool) (signals : List Signal)
    → let es = monitor_loop m was signals in
      Alternates was es × (follow was es ≡ last_check m was signals)
unfolding monitor_loop
monitor_loop_lem m was [] = (tt, refl)
monitor_loop_lem m was (s ∷ signals) = elim (Result-cases (is_connected_to_target m s.checked)) [
  | inl (c, e) ↦
      let (turns, knows) = monitor_loop_lem m c signals in
      let (turns', knows') = events_of-Alternates c was s.named _ turns in
      rw (e, monitor_loop, last_check) (turns', knows' ∙ knows)
  | inr (x, e) ↦ rw (e, monitor_loop, last_check) (monitor_loop_lem m was signals)
]

-- While every check finds some monitored network, nothing is reported, whichever network it is.
pub monitor_loop_silent :
    (m : SsidMonitor) (signals : List Signal)
    → All (λ s. is_connected_to_target m s.checked ≡ ok true) signals
    → monitor_loop m true signals ≡ []
unfolding monitor_loop events_of
monitor_loop_silent m [] h = refl
monitor_loop_silent m (s ∷ signals) (e, rest) =
    rw (e, monitor_loop) (monitor_loop_silent m signals rest)
