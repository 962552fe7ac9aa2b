-- ===== src/Backoffice/Queue/Examples.antt =====
-- The queue on one alarm that is saved between two turns of the worker.
use sen_sa.Prelude.{ℕ, ◌≡◌, refl, some, List, [], ◌∷◌, arith, length}
use sen_sa.Backoffice.Dispatch.Examples.{directory, services, policy, gas_alarm}
use sen_sa.Backoffice.Queue.{Desk, alarm_post_save_handler, loop_once, process_item}
use sen_sa.Backoffice.Queue.Draining.{
  Event, saved, turn, untimed, run_queued, run_at_once, drain, drain-IsAtOnce,
}

abbrev start : Desk
start = record { logs = []; queue = [] }

abbrev events : List (Event ℕ)
events = turn 1 ∷ saved 2 gas_alarm ∷ []

one_is_queued :
    length
      (run_queued services directory (policy "{" ∷ []) (λ n. some gas_alarm) events start).queue
    ≡ 1
unfolding run_queued alarm_post_save_handler loop_once process_item
one_is_queued = refl

drain-IsAtOnce_example :
    let policies = policy "" ∷ [] in
    let end =
      drain services directory policies
        (λ n. some gas_alarm)
        (λ n. 9)
        1
        (run_queued services directory policies (λ n. some gas_alarm) events start) in
    (end.queue ≡ [])
    × (untimed end.logs ≡ untimed (run_at_once services directory policies events start).logs)
unfolding run_queued alarm_post_save_handler loop_once process_item
drain-IsAtOnce_example =
    drain-IsAtOnce services directory (policy "" ∷ []) (λ n. some gas_alarm) events (λ n. 9) 1
      (tt, (refl, tt)) (omega arith)
