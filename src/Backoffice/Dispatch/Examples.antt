-- ===== src/Backoffice/Dispatch/Examples.antt =====
-- A directory of three users, a policy whose tokens overlap, and a broken template.
use sen_sa.Prelude.{
  ℕ, ◌≡◌, refl, true, false, none, some, List, [], ◌∷◌, String, any, length, select, if◌then◌else◌,
}
use sen_sa.Prelude.Text.{str_eq}
use sen_sa.Prelude.Sample.{naturals}
use sen_sa.Alerts.Types.{Status, Level, AlarmType}
use sen_sa.Alerts.World.{Alarm}
use sen_sa.Alerts.Samples.{plant, start}
use sen_sa.Alerts.Worker.Evaluate.{evaluate_worker}
use sen_sa.Backoffice.Dispatch.Tables.{
  Account, all_users, leaders, group, role, Token, Policy, answers, raises, text, bad_template,
  Directory, Services,
}
use sen_sa.Backoffice.Dispatch.{
  resolve_recipients, unseen, recipients_from, render_message, applies, resolve_risk_category,
  risk_code_of, level_priority, dispatch_for_alarm, dispatch_policies,
}
use sen_sa.Backoffice.Dispatch.Recipients.{
  AreDistinct, has_id, should_reach, recipients_from_reached,
}
use sen_sa.Backoffice.Dispatch.Logs.{IsComplete, dispatch_for_alarm-IsComplete}
use sen_sa.Backoffice.Dispatch.Routing.{AddsCommon, evaluate_worker_routes}

abbrev pub account : ℕ → String → Account
account id code = record {
  id = id;
  username = "user";
  first_name = "";
  role = code;
  organization = some 1;
  is_active = true;
  is_locked = false;
}

abbrev pub directory : Directory
directory = record {
  users =
      account 1 "admin"
      ∷ account 2 "operator"
      ∷ record (account 3 "admin") { is_locked = true }
      ∷ [];
  leaders = some 1 ∷ none ∷ [];
}

-- One channel's provider raises; a template that begins a field does not end it.
abbrev pub services : Services
services = record {
  send = λ channel user message. if str_eq channel "sms" then raises "timeout" else answers true "";
  format = λ template fields. if str_eq template "{" then bad_template else text template;
  clip = λ repr. repr;
}

abbrev tokens : List Token
tokens = role "admin" ∷ leaders ∷ group (some 1) ∷ all_users ∷ []

abbrev pub policy : String → Policy
policy template = record {
  id = 4;
  risk_code = "RISK_GAS";
  priority = 30;
  channels = "app" ∷ "sms" ∷ [];
  recipients = tokens;
  message_template = template;
  is_active = true;
}

abbrev pub gas_alarm : Alarm ℕ
gas_alarm = record {
  id = 9;
  alarm_type = AlarmType.sensor_danger;
  alarm_level = Level.danger;
  worker_id = "";
  worker_name = "";
  position = none;
  geofence = none;
  device_id = "sensor_01";
  sensor_type = "gas";
  message = "CO 210ppm";
  is_read = false;
  is_ai = false;
  created_at = 0;
}

dispatched : Unit {0}
unfolding dispatch_for_alarm dispatch_policies render_message applies resolve_risk_category
    risk_code_of level_priority recipients_from unseen resolve_recipients
dispatched = tt

two_are_reached : length (recipients_from directory [] tokens) ≡ 2
unfolding dispatched
two_are_reached = refl

-- One policy that cannot be rendered leaves the other without a log.
one_suppresses_all :
    dispatch_for_alarm services directory (policy "" ∷ policy "{" ∷ []) 5 gas_alarm ≡ none
unfolding dispatched
one_suppresses_all = refl

recipients_from_reached_example :
    (has_id 3 (recipients_from directory [] tokens)
      ≡ any (should_reach directory tokens 3) directory.users)
    × AreDistinct (recipients_from directory [] tokens)
recipients_from_reached_example = recipients_from_reached directory tokens 3

dispatch_for_alarm-IsComplete_example :
    IsComplete services directory 5 gas_alarm
      (select (applies gas_alarm) (policy "" ∷ policy "{" ∷ []))
      (dispatch_for_alarm services directory (policy "" ∷ policy "{" ∷ []) 5 gas_alarm)
dispatch_for_alarm-IsComplete_example =
    dispatch_for_alarm-IsComplete services directory 5 gas_alarm (policy "" ∷ policy "{" ∷ [])

evaluate_worker_routes_example :
    AddsCommon
      (policy "")
      (gas_alarm ∷ [])
      (evaluate_worker naturals true plant
        (record start { alarms = gas_alarm ∷ [] })
        5000000
        "w1"
        "Kim"
        5
        5
        Status.normal
        []).0.alarms
evaluate_worker_routes_example =
    evaluate_worker_routes naturals (policy "") true plant
      (record start { alarms = gas_alarm ∷ [] }) 5000000 "w1" "Kim" 5 5 Status.normal []
