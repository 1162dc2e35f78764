-- ===== src/StateFile/Lines.antt =====
-- What a reader of the state file finds, line by line.
use wg_ondemand.Base.{
  ℕ, ◌<◌, ◌≡◌, ◌≢◌, refl, ap, ◌∙◌, Option, [], ◌∷◌, ◌++◌, Text, All-append, arith,
}
use wg_ondemand.Base.Str.{codes, lines}
use wg_ondemand.Base.Str.Split.{Lacks}
use wg_ondemand.Base.Str.Lines.{lines-append}
use wg_ondemand.Base.Num.{show}
use wg_ondemand.Base.Ipv4.RoundTrip.{show-Lacks}
use wg_ondemand.StateFile.{state_str, ssid_or_empty, content}
use wg_ondemand.Types.{TunnelState, inactive, monitoring, activating, active, deactivating}

state_str-Lacks : (c : ℕ) (state : TunnelState) → c < 97 → Lacks c (state_str state)
unfolding state_str
state_str-Lacks c inactive lt = ground arith
state_str-Lacks c monitoring lt = ground arith
state_str-Lacks c activating lt = ground arith
state_str-Lacks c active lt = ground arith
state_str-Lacks c deactivating lt = ground arith

three_lines :
    (a b c : Text)
    → Lacks 10 a × Lacks 13 a
    → Lacks 10 b × Lacks 13 b
    → Lacks 10 c × Lacks 13 c
    → lines (a ++ 10 ∷ (b ++ 10 ∷ (c ++ 10 ∷ []))) ≡ a ∷ b ∷ c ∷ []
three_lines a b c ha hb hc =
    lines-append a (b ++ 10 ∷ (c ++ 10 ∷ [])) ha.0 ha.1
    ∙ ap (λ ls. a ∷ ls) (lines-append b (c ++ 10 ∷ []) hb.0 hb.1)
    ∙ ap (λ ls. a ∷ b ∷ ls) (lines-append c [] hc.0 hc.1 ∙ ap (λ ls. c ∷ ls) (unfold lines in refl))

-- If the SSID has neither line feed nor carriage return, the file has three lines: the state's, the
-- SSID's and the time's.
pub lines-content :
    (state : TunnelState) (ssid : Option Text) (timestamp : ℕ)
    → Lacks 10 (ssid_or_empty ssid)
    → Lacks 13 (ssid_or_empty ssid)
    → lines (content state ssid timestamp)
      ≡ (codes "STATE=" ++ state_str state)
        ∷ (codes "SSID=" ++ ssid_or_empty ssid)
        ∷ (codes "TIMESTAMP=" ++ show timestamp)
        ∷ []
lines-content state ssid timestamp lf cr =
    unfold content in
    let line = λ (k v : Text) (c : ℕ). All-append (λ x. x ≢ c) k v in
    three_lines (codes "STATE=" ++ state_str state) (codes "SSID=" ++ ssid_or_empty ssid)
      (codes "TIMESTAMP=" ++ show timestamp)
      (
        line (codes "STATE=") (state_str state) 10 (ground arith)
            (state_str-Lacks 10 state (omega arith)),
        line (codes "STATE=") (state_str state) 13 (ground arith)
            (state_str-Lacks 13 state (omega arith)),
      )
      (
        line (codes "SSID=") (ssid_or_empty ssid) 10 (ground arith) lf,
        line (codes "SSID=") (ssid_or_empty ssid) 13 (ground arith) cr,
      )
      (
        line (codes "TIMESTAMP=") (show timestamp) 10 (ground arith) (show-Lacks 10 timestamp refl),
        line (codes "TIMESTAMP=") (show timestamp) 13 (ground arith) (show-Lacks 13 timestamp refl),
      )
