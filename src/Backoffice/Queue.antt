-- ===== src/Backoffice/Queue.antt =====
-- SenSa/backoffice/signals.py and notification_queue.py: what a new alarm starts, at once or by the
-- queue of a worker thread. The queue is first in, first out; the exceptions of the dispatcher are
-- logged and swallowed both ways, and so are the logs that its transaction had begun.
pub mod Draining
pub mod Examples
use sen_sa.Prelude.{ℕ, Bool, not, Option, none, some, List, [], ◌∷◌, ◌++◌, String, if◌then◌else◌}
use sen_sa.Prelude.Text.{str_eq}
use sen_sa.Alerts.World.{Alarm}
use sen_sa.Backoffice.Dispatch.Tables.{Policy, Log, Services, Directory}
use sen_sa.Backoffice.Dispatch.{dispatch_for_alarm}

-- An item of the queue: its kind and the alarm's id.
pub record Item : Type 0 where
  pub kind : String
  pub payload : ℕ

-- The table of logs, oldest first, and the queue.
pub record Desk : Type 0 where
  pub logs : List Log
  pub queue : List Item

unfoldable pub enqueue_alarm_dispatch : (alarm_id : ℕ) → Desk → Desk
enqueue_alarm_dispatch alarm_id desk = record desk {
  queue = desk.queue ++ (record { kind = "alarm"; payload = alarm_id } ∷ []);
}

-- `none` is an exception.
unfoldable pub with_logs : Option (List Log) → Desk → Desk
with_logs none desk = desk
with_logs (some logs) desk = record desk { logs = desk.logs ++ logs }

module _ {F : Type 0} (services : Services) (dir : Directory) (policies : List Policy) where
  -- `is_async` is the setting BACKOFFICE_ASYNC_NOTIFY.
  unfoldable pub alarm_post_save_handler :
      (is_async : Bool) → (now : ℕ) → (created : Bool) → Alarm F → Desk → Desk
  unfolding enqueue_alarm_dispatch with_logs
  alarm_post_save_handler is_async now created alarm desk =
      if not created
      then desk
      else if is_async
      then enqueue_alarm_dispatch alarm.id desk
      else with_logs (dispatch_for_alarm services dir policies now alarm) desk

  -- What the worker does with an item; `find` is `Alarm.objects.get`.
  unfoldable pub process_item : (find : ℕ → Option (Alarm F)) → (now : ℕ) → Item → Desk → Desk
  unfolding with_logs
  process_item find now item desk =
      if not (str_eq item.kind "alarm") then desk else elim (find item.payload) [
        | none ↦ desk
        | some alarm ↦ with_logs (dispatch_for_alarm services dir policies now alarm) desk
      ]

  -- One turn of the worker's loop; an empty queue is a timeout.
  unfoldable pub loop_once : (find : ℕ → Option (Alarm F)) → (now : ℕ) → Desk → Desk
  unfolding process_item
  loop_once find now desk = elim desk.queue [
    | [] ↦ desk
    | item ∷ rest ↦ process_item find now item (record desk { queue = rest })
  ]
