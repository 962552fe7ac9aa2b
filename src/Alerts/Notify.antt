-- ===== src/Alerts/Notify.antt =====
-- SenSa/alerts/notifiers.py and tasks.py: the webhooks of Slack and Discord, and the Celery task
-- that sends to them. The network is a parameter: it says whether `requests.post` and
-- `raise_for_status` end without an exception.
pub mod Retries
pub mod Examples
use sen_sa.Prelude.{
  ℕ, zero, suc, Bool, true, false, not, ◌||◌, Option, none, some, List, [], ◌∷◌, ◌++◌, String,
  if◌then◌else◌,
}
use sen_sa.Prelude.Text.{str_eq, ◌++◌ as text_append}

-- The environment.
pub record Channels : Type 0 where
  pub slack_webhook_url : String
  pub discord_webhook_url : String
  pub dry_run : Bool

pub record Sent : Type 0 where
  pub slack : Bool
  pub discord : Bool
  pub dry_run : Bool
  pub skipped : Bool

-- A POST to a webhook: the address and the text.
pub record Attempt : Type 0 where
  pub url : String
  pub text : String

-- `SEVERITY_EMOJI`
unfoldable pub severity_emoji : String → String
severity_emoji severity =
    if str_eq severity "info"
    then "ℹ\u{fe0f}"
    else if str_eq severity "caution"
    then "⚠\u{fe0f}"
    else if str_eq severity "danger"
    then "🚨"
    else if str_eq severity "critical"
    then "🔴"
    else "🔔"

unfoldable pub is_configured : Channels → Bool
is_configured c =
    not (str_eq c.slack_webhook_url "") || not (str_eq c.discord_webhook_url "") || c.dry_run

-- `_post_webhook`: every exception is absorbed.
unfoldable pub post_webhook : (Attempt → Bool) → (url text : String) → List Attempt × Bool
post_webhook network url text =
    let attempt : Attempt = record { url = url; text = text } in (attempt ∷ [], network attempt)

-- `send_slack` and `send_discord`
unfoldable pub send : (Attempt → Bool) → (url text : String) → List Attempt × Bool
send network url text = if str_eq url "" then ([], false) else post_webhook network url text

abbrev pub nothing_sent : Sent
nothing_sent = record { slack = false; discord = false; dry_run = false; skipped = false }

abbrev pub notice_text : (title message severity : String) → String
notice_text title message severity =
    text_append (severity_emoji severity)
      (text_append " **[SenSa] " (text_append title (text_append "**\n" message)))

-- The attempts in order, and the result.
unfoldable pub notify_external :
    Channels → (Attempt → Bool) → (title message severity : String) → List Attempt × Sent
notify_external c network title message severity =
    let text : String = notice_text title message severity in
    let (to_slack, slack) = send network c.slack_webhook_url text in
    let (to_discord, discord) = send network c.discord_webhook_url text in
    if not (is_configured c)
    then ([], record nothing_sent { skipped = true })
    else if c.dry_run
    then ([], record nothing_sent { dry_run = true })
    else (to_slack ++ to_discord, record nothing_sent { slack = slack; discord = discord })

-- Celery's `autoretry_for=(Exception,)`: a run that ends with an exception is run again, `retries`
-- times at most. A run is what it attempted, with its result or, for an exception, none.
unfoldable pub run_with_retries :
    {A : Type 0} → (retries : ℕ) → (run : ℕ → List Attempt × Option A) → List Attempt × Option A
run_with_retries zero run = run zero
run_with_retries (suc n) run =
    let (attempts, result) = run (suc n) in
    let (more, later) = run_with_retries n run in
    elim result [ some a ↦ (attempts, some a) | none ↦ (attempts ++ more, later) ]

abbrev pub max_retries : ℕ
max_retries = 3

-- The network may answer each run otherwise.
unfoldable pub send_external_notification_task :
    Channels
    → (network : ℕ → Attempt → Bool) → (title message severity : String)
    → List Attempt × Option Sent
send_external_notification_task c network title message severity =
    run_with_retries max_retries (λ n.
      let (attempts, sent) = notify_external c (network n) title message severity in
      (attempts, some sent))
