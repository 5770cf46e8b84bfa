-- ===== src/Examples/Lifecycles.antt =====
-- Runs of the worker's lifecycle, and an amount in words.
use acb_transaction_webhook.Base.{◌≡◌, ◌≢◌, refl, true, false, List, [], ◌∷◌, arith, ◌==◌, not}
use acb_transaction_webhook.Money.{speak_vnd_parts, flatten_parts}
use acb_transaction_webhook.Money.ReadBack.{spoken_value}
use acb_transaction_webhook.Money.ReadBack.Whole.{spoken_value-speak_vnd_parts}
use acb_transaction_webhook.Worker.{
  Coordinator, Hooks, ready, quiesced, stopping, done, running, drain, stop, quiesce_begin,
  quiesce_end, check_work_allowed, is_draining, all_run,
}
use acb_transaction_webhook.Worker.Lifecycle.{
  Operation, to_ready, to_resume, to_stop, to_quiesce, operate_all, drained_for_good,
  stopped_for_good,
}
use acb_transaction_webhook.Worker.Races.{quiesce_undoes_stop}

abbrev at_work : Coordinator
at_work = record {
  state = ready;
  drain_hooks = [];
  stop_hooks = [];
  quiesce_hooks = 1 ∷ 2 ∷ [];
  resume_hooks = [];
  drain_done = false;
  stop_done = false;
}

abbrev second_fails : Hooks
second_fails k = not (k == 2)

abbrev attempts : List Operation
attempts = to_ready ∷ to_quiesce second_fails ∷ to_resume ∷ to_stop ∷ []

drained_for_good_example :
    (is_draining (operate_all attempts (drain at_work).1).state ≡ true)
    × (check_work_allowed (operate_all attempts (drain at_work).1) ≢ done)
drained_for_good_example = drained_for_good at_work attempts

stopped_for_good_example : operate_all attempts (stop at_work).1 ≡ (stop at_work).1
stopped_for_good_example = stopped_for_good at_work attempts

quiesce_run : (quiesce_begin at_work).0 ≡ running (1 ∷ 2 ∷ [])
unfolding quiesce_begin
quiesce_run = refl

quiesce_undoes_stop_example :
    let after =
      quiesce_end (all_run second_fails (1 ∷ 2 ∷ [])) (stop (quiesce_begin at_work).1).1 in
    ((stop (quiesce_begin at_work).1).1.state ≡ stopping)
    × (all_run second_fails (1 ∷ 2 ∷ []) ≡ true → after.1.state ≡ quiesced)
    × (all_run second_fails (1 ∷ 2 ∷ []) ≡ false → check_work_allowed after.1 ≡ done)
quiesce_undoes_stop_example = quiesce_undoes_stop second_fails at_work (1 ∷ 2 ∷ []) quiesce_run

spoken_value-speak_vnd_parts_example :
    spoken_value (flatten_parts (speak_vnd_parts 1005000021)) ≡ 1005000021
spoken_value-speak_vnd_parts_example = spoken_value-speak_vnd_parts 1005000021 (omega arith)
