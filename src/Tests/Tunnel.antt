-- ===== src/Tests/Tunnel.antt =====
-- The controller's theorems at small inputs.
use wg_ondemand.Base.{◌%◌, ◌^◌, ◌≡◌, refl, true, none, some, List, [], ◌∷◌, arith, Text, All}
use wg_ondemand.Base.Str.{codes}
use wg_ondemand.Os.{Os}
use wg_ondemand.Controller.{
  WgController, validate_name, new, tunnel_command, show_link, wg_stats_interface,
  parse_wg_transfer_output,
}
use wg_ondemand.Controller.Names.{SafeName, tunnel_command-SafeName}
use wg_ondemand.Controller.Transfer.{
  Peer, IsPeer, print_peers, total_rx, total_tx, parse_wg_transfer_output-print,
}

abbrev by_wg_quick : WgController
by_wg_quick = record {
  interface = codes "wg0";
  nm_connection = none;
  last_rx_bytes = 10;
  last_tx_bytes = 20;
  last_activity = some 5;
}

abbrev created : WgController
created = record by_wg_quick { last_rx_bytes = 0; last_tx_bytes = 0; last_activity = none }

tunnel_command-SafeName_example :
    All SafeName (tunnel_command (codes "up") created)
    × All SafeName (show_link created)
    × SafeName (wg_stats_interface created)
unfolding new validate_name
tunnel_command-SafeName_example =
    tunnel_command-SafeName (codes "wg0") none created (codes "up") refl
      ((λ e. absurd (ground (arith, e))), ground arith)

-- A system on which every command succeeds, and that keeps the commands.
abbrev logging : Os
logging = record {
  State = List (List Text);
  run = λ log args. (args ∷ log, some (record { success = true; stdout = []; stderr = [] }));
}

abbrev a_peer : Peer
a_peer = record { key = codes "abc="; rx = 1000; tx = 2000 }

parse_wg_transfer_output-print_example :
    parse_wg_transfer_output (print_peers (a_peer ∷ a_peer ∷ [])) ≡ (
      total_rx ((1000, 2000) ∷ (1000, 2000) ∷ []) % 2 ^ 64,
      total_tx ((1000, 2000) ∷ (1000, 2000) ∷ []) % 2 ^ 64,
    )
parse_wg_transfer_output-print_example =
    let fine : IsPeer a_peer = record {
      no_tab = ground arith;
      no_lf = ground arith;
      no_cr = ground arith;
      rx_u64 = omega arith;
      tx_u64 = omega arith;
    } in
    parse_wg_transfer_output-print (a_peer ∷ a_peer ∷ []) (fine, (fine, tt))
