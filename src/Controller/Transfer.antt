-- ===== src/Controller/Transfer.antt =====
-- The transfer statistics: what the program's output says, and the sums over the peers.
use wg_ondemand.Base.{
  ℕ, ◌+◌, ◌%◌, ◌^◌, ◌≤◌, ◌≡◌, refl, ap, ◌∙◌, List, [], ◌∷◌, ◌++◌, arith, Text, All, All-append, map,
  false, ◌≢◌,
}
use wg_ondemand.Base.Str.{split, lines}
use wg_ondemand.Base.Str.Split.{Lacks, split-append, split-Lacks}
use wg_ondemand.Base.Str.Lines.{lines-append}
use wg_ondemand.Base.Num.{max_u64, is_digit, show}
use wg_ondemand.Base.Num.RoundTrip.{parse_uint-show}
use wg_ondemand.Base.Ipv4.RoundTrip.{show-Lacks}
use wg_ondemand.Controller.{
  add_stats, add_line, add_lines, add_parsed, parse_wg_transfer_output, sum_peers,
}

pub record Peer : Type 0 where
  pub key : Text
  pub rx : ℕ
  pub tx : ℕ

-- A key without tabs and line ends, and counters that a u64 holds.
pub record IsPeer (p : Peer) : Type 0 where
  pub no_tab : Lacks 9 p.key
  pub no_lf : Lacks 10 p.key
  pub no_cr : Lacks 13 p.key
  pub rx_u64 : p.rx ≤ max_u64
  pub tx_u64 : p.tx ≤ max_u64

abbrev fields : Peer → Text
fields p = p.key ++ 9 ∷ (show p.rx ++ 9 ∷ show p.tx)

-- A line of `wg show … transfer` for each peer.
abbrev pub print_peers : List Peer → Text
print_peers [] = []
print_peers (p ∷ ps) = fields p ++ 10 ∷ print_peers ps

abbrev pub counters : Peer → ℕ × ℕ
counters p = (p.rx, p.tx)

fields-Lacks :
    (c : ℕ) (p : Peer) → (is_digit c ≡ false) → 9 ≢ c → Lacks c p.key → Lacks c (fields p)
fields-Lacks c p d tab h =
    All-append _ p.key _ h
      (tab, All-append _ (show p.rx) _ (show-Lacks c p.rx d) (tab, show-Lacks c p.tx d))

split-fields : (p : Peer) → IsPeer p → split 9 (fields p) ≡ p.key ∷ show p.rx ∷ show p.tx ∷ []
split-fields p h = rw (
  split-append 9 p.key _ h.no_tab,
  split-append 9 (show p.rx) _ (show-Lacks 9 p.rx refl),
  split-Lacks 9 (show p.tx) (show-Lacks 9 p.tx refl),
)

add_line-fields :
    (total : ℕ × ℕ) (p : Peer)
    → IsPeer p
    → add_line total (split 9 (fields p)) ≡ add_stats total p.rx p.tx
unfolding add_line add_parsed
add_line-fields total p h = rw (
  split-fields p h,
  parse_uint-show max_u64 p.rx h.rx_u64 h.rx_u64,
  parse_uint-show max_u64 p.tx h.tx_u64 h.tx_u64,
)

add_lines-print :
    (total : ℕ × ℕ) (ps : List Peer)
    → All IsPeer ps
    → add_lines total (lines (print_peers ps)) ≡ sum_peers total (map counters ps)
unfolding add_lines sum_peers
add_lines-print total [] h = unfold lines in refl
add_lines-print total (p ∷ ps) (h, hs) =
    rw
      (
        lines-append (fields p) (print_peers ps) (fields-Lacks 10 p refl (omega arith) h.no_lf)
            (fields-Lacks 13 p refl (omega arith) h.no_cr),
        add_line-fields total p h,
        add_lines,
      )
      (add_lines-print (add_stats total p.rx p.tx) ps hs)

-- The true totals, with no wrap.
abbrev pub total_rx : List (ℕ × ℕ) → ℕ
total_rx [] = 0
total_rx ((rx, tx) ∷ ps) = rx + total_rx ps

abbrev pub total_tx : List (ℕ × ℕ) → ℕ
total_tx [] = 0
total_tx ((rx, tx) ∷ ps) = tx + total_tx ps

sum_peers_from :
    (a b : ℕ) (ps : List (ℕ × ℕ))
    → sum_peers (a % 2 ^ 64, b % 2 ^ 64) ps
      ≡ ((a + total_rx ps) % 2 ^ 64, (b + total_tx ps) % 2 ^ 64)
unfolding sum_peers
sum_peers_from a b [] = ground arith
sum_peers_from a b ((rx, tx) ∷ ps) =
    let added : add_stats (a % 2 ^ 64, b % 2 ^ 64) rx tx ≡ ((a + rx) % 2 ^ 64, (b + tx) % 2 ^ 64) =
      ground arith in
    let regrouped : ((a + rx + total_rx ps) % 2 ^ 64, (b + tx + total_tx ps) % 2 ^ 64)
        ≡ ((a + (rx + total_rx ps)) % 2 ^ 64, (b + (tx + total_tx ps)) % 2 ^ 64) =
      ground arith in
    ap (λ total. sum_peers total ps) added ∙ sum_peers_from (a + rx) (b + tx) ps ∙ regrouped

-- The sums over the peers are the true totals modulo 2^64.
sum_peers-total :
    (ps : List (ℕ × ℕ)) → sum_peers (0, 0) ps ≡ (total_rx ps % 2 ^ 64, total_tx ps % 2 ^ 64)
sum_peers-total ps =
    let from_zero : ((0 + total_rx ps) % 2 ^ 64, (0 + total_tx ps) % 2 ^ 64)
        ≡ (total_rx ps % 2 ^ 64, total_tx ps % 2 ^ 64) =
      ground arith in
    sum_peers_from 0 0 ps ∙ from_zero

-- The text that `wg show` prints for some peers, with keys without tabs and line ends and with u64
-- counters, is read as their total counters modulo 2^64.
pub parse_wg_transfer_output-print :
    (ps : List Peer)
    → All IsPeer ps
    → let peers = map counters ps in
      parse_wg_transfer_output (print_peers ps) ≡ (total_rx peers % 2 ^ 64, total_tx peers % 2 ^ 64)
unfolding parse_wg_transfer_output
parse_wg_transfer_output-print ps h =
    add_lines-print (0, 0) ps h ∙ sum_peers-total (map counters ps)
