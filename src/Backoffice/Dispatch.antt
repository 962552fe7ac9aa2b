-- ===== src/Backoffice/Dispatch.antt =====
-- SenSa/backoffice/notification_dispatcher.py: which users are notified of an alarm or a notice, by
-- which channels, and what is logged. The tables are lists in the order of their queries. Delivery
-- is by the provider that the settings name for a channel, a parameter, as is `str.format`. What a
-- provider has sent before an exception is not modelled, only the logs.
pub mod Tables
pub mod Recipients
pub mod Logs
pub mod Routing
pub mod Examples
use sen_sa.Prelude.{
  ℕ, Bool, true, false, not, ◌&&◌, Option, none, some, List, [], ◌∷◌, ◌++◌, map, String, leb, ◌==◌,
  any, select, if◌then◌else◌,
}
use sen_sa.Prelude.Text.{str_eq}
use sen_sa.Alerts.Types.{Level, AlarmType}
use sen_sa.Alerts.World.{Alarm}
use sen_sa.Backoffice.Dispatch.Tables.{
  Account, Token, all_users, leaders, group, role, unknown, Policy, pending, sent, failed, skipped,
  Log, answers, raises, text, bad_field, bad_template, Fields, Directory, Services,
}

unfoldable pub risk_code_of : AlarmType → String
risk_code_of AlarmType.geofence_enter = "RISK_LOCATION"
risk_code_of AlarmType.sensor_caution = "RISK_GAS"
risk_code_of AlarmType.sensor_danger = "RISK_GAS"
risk_code_of AlarmType.combined = "RISK_COMPLEX"
risk_code_of _ = "RISK_COMMON"

unfoldable pub resolve_risk_category : {F : Type 0} → Alarm F → String
unfolding risk_code_of
resolve_risk_category alarm =
    if str_eq alarm.sensor_type "power" then "RISK_POWER" else risk_code_of alarm.alarm_type

unfoldable pub level_priority : Level → ℕ
level_priority Level.info = 10
level_priority Level.caution = 30
level_priority Level.danger = 90
level_priority Level.critical = 99

abbrev pub is_number : ℕ → Option ℕ → Bool
is_number n none = false
is_number n (some m) = m == n

abbrev pub is_usable : Account → Bool
is_usable user = user.is_active && not user.is_locked

abbrev pub is_meant : List (Option ℕ) → Token → Account → Bool
is_meant leading all_users user = true
is_meant leading leaders user = any (is_number user.id) leading
is_meant leading (group none) user = false
is_meant leading (group (some org)) user = is_number org user.organization
is_meant leading (role code) user = str_eq user.role code
is_meant leading (unknown _) user = false

unfoldable pub resolve_recipients : Directory → Token → List Account
resolve_recipients dir token =
    select (λ user. is_usable user && is_meant dir.leaders token user) dir.users

-- The users of one token that have not been seen, and the ids seen after it.
unfoldable pub unseen : (seen : List ℕ) → List Account → List Account × List ℕ
unseen seen [] = ([], seen)
unseen seen (user ∷ rest) =
    let skipping = unseen seen rest in
    let (more, after) = unseen (user.id ∷ seen) rest in
    if any (λ n. n == user.id) seen then skipping else (user ∷ more, after)

-- The users that the loops over a policy's tokens reach.
unfoldable pub recipients_from : Directory → (seen : List ℕ) → List Token → List Account
recipients_from dir seen [] = []
recipients_from dir seen (token ∷ rest) =
    let (new, after) = unseen seen (resolve_recipients dir token) in
    new ++ recipients_from dir after rest

abbrev pub or_dash : String → String
or_dash s = if str_eq s "" then "-" else s

abbrev pub fields_of : {F : Type 0} → Alarm F → Fields
fields_of alarm = record {
  worker_name = or_dash alarm.worker_name;
  worker_id = or_dash alarm.worker_id;
  device_id = or_dash alarm.device_id;
  value = alarm.message;
  level = alarm.alarm_level;
}

-- The text of a policy's messages; `none` where the exception of `format` is not caught.
unfoldable pub render_message : {F : Type 0} → Services → String → Alarm F → Option String
render_message services template alarm =
    if str_eq template ""
    then some alarm.message
    else elim (services.format template (fields_of alarm)) [
      | text s ↦ some s
      | bad_field ↦ some template
      | bad_template ↦ none
    ]

-- One log: created as pending, then saved with what the provider did.
unfoldable pub deliver :
    Services
    → (now : ℕ) (policy alarm : Option ℕ) → (message : String) → Account
    → (channel : String) → Log
deliver services now policy alarm message user channel =
    let created : Log = record {
      policy = policy;
      alarm = alarm;
      recipient = user.id;
      recipient_name_snapshot =
          if str_eq user.first_name "" then user.username else user.first_name;
      channel = channel;
      send_status = pending;
      error_message = "";
      sent_at = none;
    } in
    elim (services.send channel user message) [
      | answers ok err ↦
          if ok then record created { send_status = sent; sent_at = some now } else record created {
            send_status = if str_eq err "" then skipped else failed;
            error_message = err;
          }
      | raises repr ↦ record created { send_status = failed; error_message = services.clip repr }
    ]

unfoldable pub deliver_all :
    Services
    → (now : ℕ) (policy alarm : Option ℕ) → (message : String) → (channels : List String)
    → List Account
    → List Log
deliver_all services now policy alarm message channels [] = []
deliver_all services now policy alarm message channels (user ∷ rest) =
    map (deliver services now policy alarm message user) channels
    ++ deliver_all services now policy alarm message channels rest

unfoldable pub applies : {F : Type 0} → Alarm F → Policy → Bool
unfolding resolve_risk_category level_priority
applies alarm policy =
    policy.is_active
    && str_eq policy.risk_code (resolve_risk_category alarm)
    && leb policy.priority (level_priority alarm.alarm_level)

-- The loop over the policies that apply; an exception leaves it.
unfoldable pub dispatch_policies :
    {F : Type 0} → Services → Directory → (now : ℕ) → Alarm F → List Policy → Option (List Log)
dispatch_policies services dir now alarm [] = some []
dispatch_policies services dir now alarm (policy ∷ rest) =
    let later = dispatch_policies services dir now alarm rest in
    elim (render_message services policy.message_template alarm) [
      | none ↦ none
      | some message ↦ elim later [
        | none ↦ none
        | some logs ↦ some (
            deliver_all services now (some policy.id) (some alarm.id) message policy.channels
              (recipients_from dir [] policy.recipients)
            ++ logs)
      ]
    ]

-- The logs of an alarm, oldest first; `none` is an exception, whose transaction leaves no log.
unfoldable pub dispatch_for_alarm :
    {F : Type 0} → Services → Directory → List Policy → (now : ℕ) → Alarm F → Option (List Log)
dispatch_for_alarm services dir policies now alarm =
    dispatch_policies services dir now alarm (select (applies alarm) policies)

abbrev pub channels_or_default : Option (List String) → List String
channels_or_default none = "app" ∷ "realtime" ∷ []
channels_or_default (some []) = "app" ∷ "realtime" ∷ []
channels_or_default (some (c ∷ cs)) = c ∷ cs

-- A notice goes to all usable users; `message` is its title with the prefix.
unfoldable pub dispatch_for_notice :
    Services → Directory → (now : ℕ) → (message : String) → Option (List String) → List Log
dispatch_for_notice services dir now message channels =
    deliver_all services now none none message (channels_or_default channels)
      (select is_usable dir.users)
