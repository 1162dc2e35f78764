-- ===== src/Suite/Controller/Transfer.antt =====
-- wg-ondemand/src/wg_controller.rs, `mod tests`: the output of `wg show transfer`.
use wg_ondemand.Base.{◌≡◌, refl, Bool, true, ◌&&◌, ◌==◌, List, [], ◌∷◌, ◌++◌, Text, all_pass}
use wg_ondemand.Base.Str.{codes}
use wg_ondemand.Base.Num.{max_u64}
use wg_ondemand.Controller.{parse_wg_transfer_output}

abbrev pub test_parse_wg_show_output_single_peer : Bool
test_parse_wg_show_output_single_peer =
    let output : Text = codes "peer1_pubkey\t1024\t2048\n" in
    let (rx, tx) = parse_wg_transfer_output output in rx == 1024 && tx == 2048

abbrev pub test_parse_wg_show_output_multiple_peers : Bool
test_parse_wg_show_output_multiple_peers =
    let output : Text = codes "peer1_pubkey\t1000\t2000\npeer2_pubkey\t500\t1000\n" in
    let (rx, tx) = parse_wg_transfer_output output in rx == 1500 && tx == 3000

abbrev pub test_parse_wg_show_output_empty : Bool
test_parse_wg_show_output_empty =
    let output : Text = [] in let (rx, tx) = parse_wg_transfer_output output in rx == 0 && tx == 0

abbrev pub test_parse_wg_show_output_whitespace_only : Bool
test_parse_wg_show_output_whitespace_only =
    let output : Text = codes "\n\n\n" in
    let (rx, tx) = parse_wg_transfer_output output in rx == 0 && tx == 0

abbrev pub test_parse_wg_show_output_malformed_invalid_numbers : Bool
test_parse_wg_show_output_malformed_invalid_numbers =
    let output : Text = codes "peer1\tinvalid\t2000\npeer2\t500\t1000\n" in
    let (rx, tx) = parse_wg_transfer_output output in rx == 500 && tx == 1000

abbrev pub test_parse_wg_show_output_malformed_missing_fields : Bool
test_parse_wg_show_output_malformed_missing_fields =
    let output : Text = codes "peer1\t1000\npeer2\t500\t1000\t9999\n" in
    let (rx, tx) = parse_wg_transfer_output output in rx == 500 && tx == 1000

abbrev pub test_parse_wg_show_output_large_numbers : Bool
test_parse_wg_show_output_large_numbers =
    let output : Text = codes "peer1\t18446744073709551615\t18446744073709551615\n" in
    let (rx, tx) = parse_wg_transfer_output output in rx == max_u64 && tx == max_u64

abbrev pub test_parse_wg_show_output_zero_values : Bool
test_parse_wg_show_output_zero_values =
    let output : Text = codes "peer1\t0\t0\npeer2\t0\t0\n" in
    let (rx, tx) = parse_wg_transfer_output output in rx == 0 && tx == 0

abbrev pub test_parse_wg_show_output_mixed_valid_invalid : Bool
test_parse_wg_show_output_mixed_valid_invalid =
    let output : Text = codes "peer1\t100\t200\ninvalid_line\npeer2\t300\t400\npeer3\tbad\t500\n" in
    let (rx, tx) = parse_wg_transfer_output output in rx == 400 && tx == 600

-- All of them pass.
tests_pass :
    all_pass (
      test_parse_wg_show_output_single_peer ∷ test_parse_wg_show_output_multiple_peers
      ∷ test_parse_wg_show_output_empty ∷ test_parse_wg_show_output_whitespace_only
      ∷ test_parse_wg_show_output_malformed_invalid_numbers
      ∷ test_parse_wg_show_output_malformed_missing_fields ∷ test_parse_wg_show_output_large_numbers
      ∷ test_parse_wg_show_output_zero_values ∷ test_parse_wg_show_output_mixed_valid_invalid ∷ [])
    ≡ true
unfolding parse_wg_transfer_output wg_ondemand.Base.Str.lines wg_ondemand.Base.Str.split
    wg_ondemand.Base.Num.parse_uint wg_ondemand.Base.Num.scan
tests_pass = refl
