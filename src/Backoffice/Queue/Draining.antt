-- ===== src/Backoffice/Queue/Draining.antt =====
-- The queue delivers what the immediate dispatch would.
use mathlib.Core.List.{append-nil, append_assoc, map-append}
use sen_sa.Prelude.{
  ℕ, zero, suc, ◌≤◌, ◌≡◌, refl, sym, ap, ◌∙◌, true, false, Option, none, some, List, [], ◌∷◌, ◌++◌,
  map, String, arith, select, length, All, Bool-cases, Option-cases, inl, inr, if◌then◌else◌,
}
use sen_sa.Prelude.Text.{str_eq}
use sen_sa.Alerts.World.{Alarm}
use sen_sa.Backoffice.Dispatch.Tables.{Account, Policy, Log, Services, Directory}
use sen_sa.Backoffice.Dispatch.{
  recipients_from, render_message, deliver, deliver_all, applies, dispatch_policies,
  dispatch_for_alarm,
}
use sen_sa.Backoffice.Queue.{
  Item, Desk, with_logs, enqueue_alarm_dispatch, alarm_post_save_handler, process_item, loop_once,
}

-- Logs without the times at which they were sent.
abbrev pub untime : Log → Log
untime log = record log { sent_at = none }

abbrev pub untimed : List Log → List Log
untimed logs = map untime logs

abbrev written : Option (List Log) → List Log
written none = []
written (some logs) = logs

abbrev untimed? : Option (List Log) → Option (List Log)
untimed? none = none
untimed? (some logs) = some (untimed logs)

-- What the loop over the policies makes of the logs of the later ones.
abbrev before : List Log → Option (List Log) → Option (List Log)
before here later = elim later [ none ↦ none | some logs ↦ some (here ++ logs) ]

untimed-before :
    (here here' : List Log) (later later' : Option (List Log))
    → untimed here ≡ untimed here'
    → untimed? later ≡ untimed? later'
    → untimed? (before here later) ≡ untimed? (before here' later')
untimed-before here here' none none e f = refl
untimed-before here here' none (some b) e f = cc
untimed-before here here' (some a) none e f = cc
untimed-before here here' (some a) (some b) e f =
    let f' : untimed a ≡ untimed b = ap written f in simp map-append (cc (e, f'))

written-untimed : (o : Option (List Log)) → untimed (written o) ≡ written (untimed? o)
written-untimed none = refl
written-untimed (some logs) = refl

module _ (services : Services) where
  map-deliver :
      (now now' : ℕ) (policy alarm : Option ℕ) (message : String) (user : Account)
      (channels : List String)
      → untimed (map (deliver services now policy alarm message user) channels)
        ≡ untimed (map (deliver services now' policy alarm message user) channels)
  unfolding deliver
  map-deliver now now' policy alarm message user [] = refl
  map-deliver now now' policy alarm message user (c ∷ cs) =
      ground (arith, map-deliver now now' policy alarm message user cs)

  untimed-deliver_all :
      (now now' : ℕ) (policy alarm : Option ℕ) (message : String) (channels : List String)
      (users : List Account)
      → untimed (deliver_all services now policy alarm message channels users)
        ≡ untimed (deliver_all services now' policy alarm message channels users)
  unfolding deliver_all
  untimed-deliver_all now now' policy alarm message channels [] = refl
  untimed-deliver_all now now' policy alarm message channels (user ∷ rest) = simp map-append (
      cc (
        map-deliver now now' policy alarm message user channels,
        untimed-deliver_all now now' policy alarm message channels rest,
      ))

join-untimed :
    (a b c d e : List Log)
    → untimed (a ++ b) ≡ untimed d
    → untimed c ≡ untimed e
    → untimed (a ++ (b ++ (c ++ []))) ≡ untimed (d ++ e)
join-untimed a b c d e p q =
    let split : untimed (a ++ b) ≡ untimed a ++ untimed b = map-append untime a b in
    simp (append-nil, map-append, ← p, ← q, append_assoc) refl

-- An alarm is saved, or the worker makes a turn.
pub data Event (F : Type 0) : Type 0 where
  saved : (now : ℕ) (alarm : Alarm F) → Event F
  turn : (now : ℕ) → Event F

-- The table still holds the alarms that are saved.
abbrev pub IsKept : {F : Type 0} → (find : ℕ → Option (Alarm F)) → Event F → Type 0
IsKept find (saved now alarm) = find alarm.id ≡ some alarm
IsKept find (turn now) = Unit {0}

module _ {F : Type 0} (services : Services) (dir : Directory) (policies : List Policy) where
  dispatch_policies-untimed :
      (now now' : ℕ) (alarm : Alarm F) (ps : List Policy)
      → untimed? (dispatch_policies services dir now alarm ps)
        ≡ untimed? (dispatch_policies services dir now' alarm ps)
  unfolding dispatch_policies
  dispatch_policies-untimed now now' alarm [] = refl
  dispatch_policies-untimed now now' alarm (policy ∷ rest) =
      elim (Option-cases (render_message services policy.message_template alarm)) [
        | inl fails ↦ rw (fails, dispatch_policies) refl
        | inr (message, renders) ↦
            rw (renders, dispatch_policies)
              (untimed-before _ _ _ _
                (untimed-deliver_all services now now' (some policy.id) (some alarm.id) message
                  policy.channels (recipients_from dir [] policy.recipients))
                (dispatch_policies-untimed now now' alarm rest))
      ]

  -- The logs of an alarm.
  abbrev logs_of : (now : ℕ) → Alarm F → List Log
  logs_of now alarm = written (dispatch_for_alarm services dir policies now alarm)

  logs_of-untimed :
      (now now' : ℕ) (alarm : Alarm F) → untimed (logs_of now alarm) ≡ untimed (logs_of now' alarm)
  unfolding dispatch_for_alarm
  logs_of-untimed now now' alarm =
      let ps = select (applies alarm) policies in
      written-untimed (dispatch_policies services dir now alarm ps)
      ∙ ap written (dispatch_policies-untimed now now' alarm ps)
      ∙ sym (written-untimed (dispatch_policies services dir now' alarm ps))

  with_logs-logs :
      (now : ℕ) (alarm : Alarm F) (desk : Desk)
      → with_logs (dispatch_for_alarm services dir policies now alarm) desk
        ≡ record desk { logs = desk.logs ++ logs_of now alarm }
  unfolding with_logs
  with_logs-logs now alarm desk =
      elim (Option-cases (dispatch_for_alarm services dir policies now alarm)) [
        | inl e ↦ rw (e, with_logs) (ground (arith, append-nil desk.logs))
        | inr (logs, e) ↦ rw (e, with_logs) refl
      ]

  -- The logs that the items of a queue are due.
  logs_due : (find : ℕ → Option (Alarm F)) → List Item → List Log
  logs_due find [] = []
  logs_due find (item ∷ rest) =
      let here : List Log =
        (if str_eq item.kind "alarm"
          then elim (find item.payload) [ none ↦ [] | some alarm ↦ logs_of 0 alarm ]
          else []) in
      here ++ logs_due find rest

  logs_due-append :
      (find : ℕ → Option (Alarm F)) (xs ys : List Item)
      → logs_due find (xs ++ ys) ≡ logs_due find xs ++ logs_due find ys
  unfolding logs_due
  logs_due-append find [] ys = refl
  logs_due-append find (x ∷ xs) ys = rw (logs_due-append find xs ys) (simp append_assoc)

  -- What the desk has logged and what it still owes.
  abbrev settled : (find : ℕ → Option (Alarm F)) → Desk → List Log
  settled find desk = desk.logs ++ logs_due find desk.queue

  loop_once-settled :
      (find : ℕ → Option (Alarm F)) (now : ℕ) (logs : List Log) (queue : List Item)
      → let desk : Desk = record { logs = logs; queue = queue } in
        untimed (settled find (loop_once services dir policies find now desk))
        ≡ untimed (settled find desk)
  unfolding loop_once process_item logs_due
  loop_once-settled find now logs [] = refl
  loop_once-settled find now logs (item ∷ rest) = elim (Bool-cases (str_eq item.kind "alarm")) [
    | inr other ↦ rw other refl
    | inl kind ↦ elim (Option-cases (find item.payload)) [
      | inl gone ↦ rw (kind, gone) refl
      | inr (alarm, found) ↦
          rw (kind, found, with_logs-logs now alarm (record { logs = logs; queue = rest }))
            (simp (map-append, append_assoc) (cc (logs_of-untimed now 0 alarm)))
    ]
  ]

  saved-settled :
      (find : ℕ → Option (Alarm F)) (now : ℕ) (alarm : Alarm F) (desk at_once : Desk)
      → find alarm.id ≡ some alarm
      → untimed (settled find desk) ≡ untimed at_once.logs
      → untimed
          (settled find (alarm_post_save_handler services dir policies true now true alarm desk))
        ≡ untimed (alarm_post_save_handler services dir policies false now true alarm at_once).logs
  unfolding alarm_post_save_handler enqueue_alarm_dispatch logs_due
  saved-settled find now alarm desk at_once found same =
      let item : Item = record { kind = "alarm"; payload = alarm.id } in
      rw (logs_due-append find desk.queue (item ∷ []), found, with_logs-logs now alarm at_once)
        (join-untimed desk.logs (logs_due find desk.queue) (logs_of 0 alarm) at_once.logs
          (logs_of now alarm) same (logs_of-untimed 0 now alarm))

  -- With the queue.
  unfoldable pub run_queued : (find : ℕ → Option (Alarm F)) → List (Event F) → Desk → Desk
  run_queued find [] desk = desk
  run_queued find (saved now alarm ∷ rest) desk =
      run_queued find rest (alarm_post_save_handler services dir policies true now true alarm desk)
  run_queued find (turn now ∷ rest) desk =
      run_queued find rest (loop_once services dir policies find now desk)

  -- Without it the same alarms are dispatched as they are saved.
  unfoldable pub run_at_once : List (Event F) → Desk → Desk
  run_at_once [] desk = desk
  run_at_once (saved now alarm ∷ rest) desk =
      run_at_once rest (alarm_post_save_handler services dir policies false now true alarm desk)
  run_at_once (turn now ∷ rest) desk = run_at_once rest desk

  run_queued-settled :
      (find : ℕ → Option (Alarm F)) (events : List (Event F)) (desk at_once : Desk)
      → All (IsKept find) events
      → untimed (settled find desk) ≡ untimed at_once.logs
      → untimed (settled find (run_queued find events desk))
        ≡ untimed (run_at_once events at_once).logs
  unfolding run_queued run_at_once
  run_queued-settled find [] desk at_once kept same = same
  run_queued-settled find (turn now ∷ rest) desk at_once kept same =
      run_queued-settled find rest _ at_once kept.1
        (loop_once-settled find now desk.logs desk.queue ∙ same)
  run_queued-settled find (saved now alarm ∷ rest) desk at_once kept same =
      run_queued-settled find rest _ _ kept.1
        (saved-settled find now alarm desk at_once kept.0 same)

  -- The worker's turns when no alarm comes any more, at the instants of `clock`.
  unfoldable pub drain : (find : ℕ → Option (Alarm F)) → (clock : ℕ → ℕ) → (turns : ℕ) → Desk → Desk
  drain find clock zero desk = desk
  drain find clock (suc n) desk =
      drain find clock n (loop_once services dir policies find (clock n) desk)

  queue-process_item :
      (find : ℕ → Option (Alarm F)) (now : ℕ) (item : Item) (desk : Desk)
      → (process_item services dir policies find now item desk).queue ≡ desk.queue
  unfolding process_item with_logs
  queue-process_item find now item desk = ground arith

  drain-queue :
      (find : ℕ → Option (Alarm F)) (clock : ℕ → ℕ) (n : ℕ) (logs : List Log) (queue : List Item)
      → length queue ≤ n
      → (drain find clock n (record { logs = logs; queue = queue })).queue ≡ []
  unfolding drain loop_once
  drain-queue find clock zero logs [] few = refl
  drain-queue find clock zero logs (item ∷ rest) few = absurd (omega arith)
  drain-queue find clock (suc n) logs [] few = drain-queue find clock n logs [] (omega arith)
  drain-queue find clock (suc n) logs (item ∷ rest) few =
      let desk : Desk = record { logs = logs; queue = rest } in
      let desk' = process_item services dir policies find (clock n) item desk in
      let same : desk'.queue ≡ rest = queue-process_item find (clock n) item desk in
      drain-queue find clock n desk'.logs desk'.queue (rw same (omega arith))

  drain-settled :
      (find : ℕ → Option (Alarm F)) (clock : ℕ → ℕ) (n : ℕ) (desk : Desk)
      → untimed (settled find (drain find clock n desk)) ≡ untimed (settled find desk)
  unfolding drain
  drain-settled find clock zero desk = refl
  drain-settled find clock (suc n) desk =
      drain-settled find clock n _ ∙ loop_once-settled find (clock n) desk.logs desk.queue

  -- Whatever the order in which alarms are saved and the worker makes its turns, and whatever the
  -- times: once the worker has made as many more turns as items were left, the queue is empty and
  -- the logs are those that the dispatch at once writes, in the same order, but for the times at
  -- which they were sent; provided that the table still holds each alarm as it was saved.
  pub drain-IsAtOnce :
      (find : ℕ → Option (Alarm F)) (events : List (Event F)) (clock : ℕ → ℕ) (n : ℕ)
      → All (IsKept find) events
      → let start : Desk = record { logs = []; queue = [] } in
        length (run_queued find events start).queue ≤ n
        → let end = drain find clock n (run_queued find events start) in
          (end.queue ≡ []) × (untimed end.logs ≡ untimed (run_at_once events start).logs)
  unfolding logs_due
  drain-IsAtOnce find events clock n kept few =
      let start : Desk = record { logs = []; queue = [] } in
      let desk = run_queued find events start in
      let end = drain find clock n desk in
      let empty : end.queue ≡ [] = drain-queue find clock n desk.logs desk.queue few in
      let nothing : logs_due find end.queue ≡ [] = rw empty refl in
      let all_paid : settled find end ≡ end.logs = rw nothing (append-nil end.logs) in
      (
        empty,
        ap untimed (sym all_paid)
            ∙ drain-settled find clock n desk
            ∙ run_queued-settled find events start start kept refl,
      )
