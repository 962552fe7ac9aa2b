-- ===== src/Backoffice/Dispatch/Logs.antt =====
-- What the dispatcher leaves in the table of logs.
use sen_sa.Prelude.{
  ℕ, ◌≡◌, refl, ◌∙◌, ap, ◌≢◌, Bool, true, false, Option, none, some, List, [], ◌∷◌, ◌++◌, map,
  String, arith, any, select, All, All-append, Option-cases, inl, inr,
}
use sen_sa.Alerts.World.{Alarm}
use sen_sa.Backoffice.Dispatch.Tables.{Account, Policy, pending, Log, Services, Directory}
use sen_sa.Backoffice.Dispatch.{
  is_usable, recipients_from, render_message, deliver, deliver_all, applies, dispatch_policies,
  dispatch_for_alarm, channels_or_default, dispatch_for_notice,
}

abbrev pub IsDone : Log → Type 0
IsDone log = log.send_status ≢ pending

deliver-IsDone :
    (services : Services) (now : ℕ) (policy alarm : Option ℕ) (message : String) (user : Account)
    (channel : String)
    → IsDone (deliver services now policy alarm message user channel)
unfolding deliver
deliver-IsDone services now policy alarm message user channel = λ e. ground arith

map-IsDone :
    (services : Services) (now : ℕ) (policy alarm : Option ℕ) (message : String) (user : Account)
    (channels : List String)
    → All IsDone (map (deliver services now policy alarm message user) channels)
map-IsDone services now policy alarm message user [] = tt
map-IsDone services now policy alarm message user (c ∷ cs) = (
  deliver-IsDone services now policy alarm message user c,
  map-IsDone services now policy alarm message user cs,
)

deliver_all-IsDone :
    (services : Services) (now : ℕ) (policy alarm : Option ℕ) (message : String)
    (channels : List String) (users : List Account)
    → All IsDone (deliver_all services now policy alarm message channels users)
unfolding deliver_all
deliver_all-IsDone services now policy alarm message channels [] = tt
deliver_all-IsDone services now policy alarm message channels (user ∷ rest) =
    All-append IsDone (map (deliver services now policy alarm message user) channels) _
      (map-IsDone services now policy alarm message user channels)
      (deliver_all-IsDone services now policy alarm message channels rest)

-- What a log is about: the policy and the alarm, the user and the channel.
abbrev pub log_key : Log → Option ℕ × Option ℕ × ℕ × String
log_key log = (log.policy, log.alarm, log.recipient, log.channel)

-- The keys that are due for these users and channels: each user by each channel, in their order.
abbrev pub keys_of_user :
    (policy alarm : Option ℕ) → ℕ → List String → List (Option ℕ × Option ℕ × ℕ × String)
keys_of_user policy alarm user [] = []
keys_of_user policy alarm user (c ∷ cs) =
    (policy, alarm, user, c) ∷ keys_of_user policy alarm user cs

abbrev pub keys_due :
    (policy alarm : Option ℕ) → List String → List Account → List (Option ℕ × Option ℕ × ℕ × String)
keys_due policy alarm channels [] = []
keys_due policy alarm channels (user ∷ rest) =
    keys_of_user policy alarm user.id channels ++ keys_due policy alarm channels rest

map-append : {A B : Type 0} (f : A → B) (xs ys : List A) → map f (xs ++ ys) ≡ map f xs ++ map f ys
map-append f [] ys = refl
map-append f (x ∷ xs) ys = ap (◌∷◌ (f x)) (map-append f xs ys)

deliver-log_key :
    (services : Services) (now : ℕ) (policy alarm : Option ℕ) (message : String) (user : Account)
    (channel : String)
    → log_key (deliver services now policy alarm message user channel)
      ≡ (policy, alarm, user.id, channel)
unfolding deliver
deliver-log_key services now policy alarm message user channel = ground arith

map-log_key :
    (services : Services) (now : ℕ) (policy alarm : Option ℕ) (message : String) (user : Account)
    (channels : List String)
    → map log_key (map (deliver services now policy alarm message user) channels)
      ≡ keys_of_user policy alarm user.id channels
map-log_key services now policy alarm message user [] = refl
map-log_key services now policy alarm message user (c ∷ cs) =
    rw (deliver-log_key services now policy alarm message user c)
      (ap (◌∷◌ (policy, alarm, user.id, c)) (map-log_key services now policy alarm message user cs))

pub deliver_all-keys_due :
    (services : Services) (now : ℕ) (policy alarm : Option ℕ) (message : String)
    (channels : List String) (users : List Account)
    → map log_key (deliver_all services now policy alarm message channels users)
      ≡ keys_due policy alarm channels users
unfolding deliver_all
deliver_all-keys_due services now policy alarm message channels [] = refl
deliver_all-keys_due services now policy alarm message channels (user ∷ rest) =
    let here = map (deliver services now policy alarm message user) channels in
    map-append log_key here (deliver_all services now policy alarm message channels rest)
    ∙ rw
        (
          map-log_key services now policy alarm message user channels,
          deliver_all-keys_due services now policy alarm message channels rest,
        )
        refl

-- A notice is logged once for each usable user and channel, and no log is left pending, whatever
-- the providers do.
pub dispatch_for_notice_complete :
    (services : Services) (dir : Directory) (now : ℕ) (message : String)
    (channels : Option (List String))
    → let logs = dispatch_for_notice services dir now message channels in
      (map log_key logs
        ≡ keys_due none none (channels_or_default channels) (select is_usable dir.users))
      × All IsDone logs
unfolding dispatch_for_notice
dispatch_for_notice_complete services dir now message channels = (
  deliver_all-keys_due services now none none message (channels_or_default channels)
      (select is_usable dir.users),
  deliver_all-IsDone services now none none message (channels_or_default channels)
      (select is_usable dir.users),
)

module _ {F : Type 0} (services : Services) (dir : Directory) (now : ℕ) (alarm : Alarm F) where
  -- The logs of the policies: each of a policy's recipients by each of its channels.
  abbrev pub logs_due : List Policy → List (Option ℕ × Option ℕ × ℕ × String)
  logs_due [] = []
  logs_due (policy ∷ rest) =
      keys_due (some policy.id) (some alarm.id) policy.channels
        (recipients_from dir [] policy.recipients)
      ++ logs_due rest

  abbrev pub cannot_render : Policy → Bool
  cannot_render policy = elim (render_message services policy.message_template alarm) [
    | none ↦ true
    | some _ ↦ false
  ]

  -- What the dispatcher returns for policies whose messages can or cannot be rendered.
  abbrev pub IsComplete : List Policy → Option (List Log) → Type 0
  IsComplete policies none = any cannot_render policies ≡ true
  IsComplete policies (some logs) =
      (any cannot_render policies ≡ false)
      × (map log_key logs ≡ logs_due policies)
      × All IsDone logs

  -- The first of the policies renders its message, the others are done.
  extended-IsComplete :
      (policy : Policy) (rest : List Policy) (message : String)
      → render_message services policy.message_template alarm ≡ some message
      → (later : Option (List Log)) → IsComplete rest later
      → let here =
          deliver_all services now
            (some policy.id)
            (some alarm.id)
            message
            policy.channels
            (recipients_from dir [] policy.recipients) in
        IsComplete (policy ∷ rest) (elim later [ none ↦ none | some logs ↦ some (here ++ logs) ])
  extended-IsComplete policy rest message renders none fails = ground arith
  extended-IsComplete policy rest message renders (some logs) (fine, count, done) =
      let users = recipients_from dir [] policy.recipients in
      let here =
        deliver_all services now (some policy.id) (some alarm.id) message policy.channels users in
      (
        ground arith,
        map-append log_key here logs
            ∙ rw
                (
                  deliver_all-keys_due services now (some policy.id) (some alarm.id) message
                      policy.channels users,
                  count,
                )
                refl,
        All-append IsDone here logs
            (deliver_all-IsDone services now (some policy.id) (some alarm.id) message
              policy.channels users)
            done,
      )

  dispatch_policies-IsComplete :
      (policies : List Policy)
      → IsComplete policies (dispatch_policies services dir now alarm policies)
  unfolding dispatch_policies
  dispatch_policies-IsComplete [] = (refl, refl, tt)
  dispatch_policies-IsComplete (policy ∷ rest) =
      elim (Option-cases (render_message services policy.message_template alarm)) [
        | inl fails ↦ rw (fails, dispatch_policies) (ground arith)
        | inr (message, renders) ↦
            rw (renders, dispatch_policies)
              (extended-IsComplete policy rest message renders _
                (dispatch_policies-IsComplete rest))
      ]

  -- Where the message of every policy that applies can be rendered, the logs are, in order, one of
  -- each policy for each of its recipients and channels, and no log is left pending, whatever the
  -- providers do; where one cannot, nothing is logged of any policy.
  pub dispatch_for_alarm-IsComplete :
      (policies : List Policy)
      → IsComplete
          (select (applies alarm) policies)
          (dispatch_for_alarm services dir policies now alarm)
  unfolding dispatch_for_alarm
  dispatch_for_alarm-IsComplete policies =
      dispatch_policies-IsComplete (select (applies alarm) policies)
