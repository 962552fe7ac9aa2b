-- ===== src/Alerts/Notify/Examples.antt =====
-- Slack alone, while the network is down.
use sen_sa.Prelude.{◌≡◌, false, some, ◌++◌}
use sen_sa.Alerts.Notify.{Channels, notice_text, notify_external, send_external_notification_task}
use sen_sa.Alerts.Notify.Retries.{attempts_for, send_external_notification_task_once}

abbrev slack_only : Channels
slack_only = record {
  slack_webhook_url = "https://hooks.example/1";
  discord_webhook_url = "";
  dry_run = false;
}

send_external_notification_task_once_example :
    let (attempts, result) =
      send_external_notification_task slack_only (λ run attempt. false) "t" "m" "critical" in
    let text = notice_text "t" "m" "critical" in
    (attempts
      ≡ attempts_for slack_only slack_only.slack_webhook_url text
        ++ attempts_for slack_only slack_only.discord_webhook_url text)
    × (result ≡ some (notify_external slack_only (λ attempt. false) "t" "m" "critical").1)
send_external_notification_task_once_example =
    send_external_notification_task_once slack_only (λ run attempt. false) "t" "m" "critical"
