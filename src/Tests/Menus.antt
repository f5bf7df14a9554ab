-- ===== src/Tests/Menus.antt =====
-- The theorems on reading keys and on voice menus, at concrete options.
use next_call.Base.{
  ◌+◌, ◌≤◌, ◌≡◌, ◌≢◌, ◌⊎◌, refl, true, false, none, some, [], ◌∷◌, map, Bytes, codes, arith, take,
  length, ltb, ◌==◌,
}
use next_call.Base.Integer.{pos, to_nat, above_zero}
use next_call.Session.{World, Now, pending, resolves, count}
use next_call.Pbx.Read.{
  ReadOptions, broadcast_done, dtmf, playback_stop, pause_done, check, start, run,
}
use next_call.Pbx.Read.Laws.{run-inputs}
use next_call.Pbx.Read.Keys.{before, are_keys, run-keys}
use next_call.Pbx.Digits.{Command, DigitOptions, retries, uuid_play_and_get_digits}
use next_call.Pbx.Digits.Laws.{uuid_play_and_get_digits-reads}
use next_call.Pbx.Digits.Laws as Digits
use next_call.Ivr.{IvrData, ActionDoc, NextStep, Call, Ivr}
use next_call.Ivr.Action.Rules.{IsQuiet}
use next_call.Ivr.Steps.{wait_amoment}
use next_call.Ivr.Compare.{as_string, gt, compare_values}
use next_call.Ivr.Compare.Laws.{
  comparison, opposite, is_ordered, is_known, compare_values-exchanged,
}

abbrev four_keys : ReadOptions
four_keys = record { terminators = codes "#"; max = 4; timeout = 5000 }

run-inputs_example :
    ((run four_keys start
        (broadcast_done ∷ dtmf b'1' ∷ playback_stop ∷ pause_done ∷ check 6 ∷ [])).inputs
      ≡ codes "timeout")
    ⊎ (((run four_keys start
            (broadcast_done ∷ dtmf b'1' ∷ playback_stop ∷ pause_done ∷ check 6 ∷ [])).inputs
          ≡ codes "hangup")
        ⊎ (length
              (run four_keys start
                (broadcast_done ∷ dtmf b'1' ∷ playback_stop ∷ pause_done ∷ check 6 ∷ [])).inputs
            ≤ four_keys.max))
run-inputs_example =
    run-inputs four_keys (broadcast_done ∷ dtmf b'1' ∷ playback_stop ∷ pause_done ∷ check 6 ∷ [])
      (omega arith)

run-keys_example :
    (run four_keys start (broadcast_done ∷ map dtmf (b'1' ∷ b'2' ∷ b'#' ∷ b'3' ∷ []))).inputs
    ≡ take four_keys.max (before four_keys.terminators (b'1' ∷ b'2' ∷ b'#' ∷ b'3' ∷ []))
unfolding are_keys
run-keys_example = run-keys four_keys (b'1' ∷ b'2' ∷ b'#' ∷ b'3' ∷ []) (omega arith) refl

abbrev amount : DigitOptions
amount = record {
  file = codes "amount";
  regexp = [];
  var_name = codes "amount";
  input_err_file = [];
  input_err_retry = some (pos 2);
  input_timeout_file = [];
  input_timeout_retry = none;
  input_when_invalid_tip = false;
}

abbrev silence : World Bytes Command
silence = record {
  reply = λ l. resolves (record { body = some (codes "timeout"); success = true; id = 0 });
  meanwhile = λ l k. k;
  clock = λ l. 0;
}

abbrev asked : Now Bytes Command
asked = record { state = []; log = [] }

uuid_play_and_get_digits-reads_example :
    ((uuid_play_and_get_digits (λ r s. true) amount 6 false silence asked).0 ≢ pending)
    × (count Digits.is_read
            (uuid_play_and_get_digits (λ r s. true) amount 6 false silence asked).1.log
          + 1
        ≤ to_nat (retries amount.input_err_retry)
          + to_nat (retries amount.input_timeout_retry)
          + count Digits.is_read asked.log)
unfolding retries to_nat above_zero
uuid_play_and_get_digits-reads_example =
    uuid_play_and_get_digits-reads (λ r s. true) amount 6 false silence asked (omega arith)

abbrev pub menu_now : Now IvrData Call
menu_now = record {
  state = record {
    ivr_current_deep = 98;
    ivr_max_deep = 100;
    main_ivr_number = [];
    is_hangup = false;
  };
  log = [];
}

abbrev pub calm : World IvrData Call
calm = record {
  reply = λ l. resolves (record { body = some (codes "7"); success = true; id = 0 });
  meanwhile = λ l d. d;
  clock = λ l. 0;
}

abbrev waits : Bytes → ActionDoc → Ivr NextStep
waits ivr doc = wait_amoment doc.action_type

pub calm-IsQuiet : IsQuiet calm
calm-IsQuiet = record { deep = λ l d. refl; max = λ l d. refl }

compare_values-exchanged_example :
    (compare_values ltb ◌==◌
      (λ t. 0)
      (λ n. n)
      (codes "u1")
      (comparison (codes "level") as_string (opposite gt) b'5' [] (codes "2,1") (codes "3,1"))
      calm
      menu_now).0
    ≡ (compare_values ltb ◌==◌
        (λ t. 0)
        (λ n. n)
        (codes "u1")
        (comparison (codes "level") as_string gt b'5' [] (codes "3,1") (codes "2,1"))
        calm
        menu_now).0
unfolding is_ordered is_known
compare_values-exchanged_example =
    compare_values-exchanged ltb ◌==◌ (λ t. 0) (λ n. n) (codes "u1") (codes "level") as_string gt
      b'5' [] (codes "3,1") (codes "2,1") calm menu_now refl refl
