-- ===== src/Alerts/Notify/Retries.antt =====
-- How often a notification is sent.
use sen_sa.Prelude.{
  ℕ, ◌≡◌, refl, Bool, ◌||◌, some, List, [], ◌∷◌, ◌++◌, String, arith, if◌then◌else◌,
}
use sen_sa.Prelude.Text.{str_eq}
use sen_sa.Alerts.Notify.{
  Attempt, Channels, is_configured, max_retries, notice_text, notify_external, post_webhook,
  run_with_retries, send, send_external_notification_task,
}

abbrev pub attempts_for : Channels → (url text : String) → List Attempt
attempts_for c url text =
    if c.dry_run || str_eq url "" then [] else record { url = url; text = text } ∷ []

notify_external_attempts :
    (c : Channels) (network : Attempt → Bool) (title message severity : String)
    → let text = notice_text title message severity in
      (notify_external c network title message severity).0
      ≡ attempts_for c c.slack_webhook_url text ++ attempts_for c c.discord_webhook_url text
unfolding notify_external send post_webhook is_configured
notify_external_attempts c network title message severity = ground arith

-- The task never retries: whatever the network does, and in whatever run, it sends at most one
-- message to each channel, to Slack first, and only to a channel with an address and outside a dry
-- run; and it returns without an exception.
pub send_external_notification_task_once :
    (c : Channels) (network : ℕ → Attempt → Bool) (title message severity : String)
    → let (attempts, result) = send_external_notification_task c network title message severity in
      let text = notice_text title message severity in
      (attempts
        ≡ attempts_for c c.slack_webhook_url text ++ attempts_for c c.discord_webhook_url text)
      × (result ≡ some (notify_external c (network max_retries) title message severity).1)
unfolding send_external_notification_task run_with_retries
send_external_notification_task_once c network title message severity =
    (notify_external_attempts c (network max_retries) title message severity, refl)
