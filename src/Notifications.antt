-- ===== src/Notifications.antt =====
-- app/notifications/service.py: the outbox of Discord notifications and its dispatcher.
pub mod Dispatch
pub mod Progress
use palworld_manager.Prelude.{
  ℕ, suc, ◌+◌, ◌*◌, Bool, true, false, ◌&&◌, ◌||◌, String, Option, none, some, List, [], ◌∷◌, ◌++◌,
  map, ◌==◌, ltb, leb, str_eq, if◌then◌else◌,
}
use palworld_manager.Db.Enums.{EventType, NotificationStatus, DeliveryErrorKind, is_transient}
use palworld_manager.Db.Rows.{Time, second, NotificationEvent, Db}

abbrev pub notification_channel_discord : String
notification_channel_discord = "DISCORD"

abbrev pub max_notification_attempts : ℕ
max_notification_attempts = 3

-- `NOTIFICATION_RETRY_DELAYS[attempts - 1]`; a third attempt is not followed by another.
abbrev pub retry_delay : ℕ → ℕ
retry_delay attempts = if attempts == 1 then 5 * second else 30 * second

unfoldable pub fresh_event_id : List NotificationEvent → ℕ
fresh_event_id [] = 1
fresh_event_id (n ∷ ns) = let rest = fresh_event_id ns in if leb rest n.id then suc n.id else rest

-- The supported types are the constructors of `EventType`. `updated_at` has the database's default,
-- the time of the insertion.
unfoldable pub enqueue_discord_notification : EventType → Option ℕ → Time → Db → Db
unfolding fresh_event_id
enqueue_discord_notification event_type job_id created_at db = record db {
  notifications =
      db.notifications
      ++ record {
        id = fresh_event_id db.notifications;
        event_type = event_type;
        channel = notification_channel_discord;
        status = NotificationStatus.pending;
        created_at = created_at;
        updated_at = created_at;
        job_id = job_id;
        attempts = 0;
        next_attempt_at = none;
        delivered_at = none;
        last_error = none;
      }
        ∷ [];
}

abbrev pub is_waiting : NotificationStatus → Bool
is_waiting NotificationStatus.pending = true
is_waiting _ = false

abbrev pub is_sending : NotificationStatus → Bool
is_sending NotificationStatus.sending = true
is_sending _ = false

abbrev is_due : Time → Option Time → Bool
is_due now none = true
is_due now (some t) = leb t now

-- The WHERE clause of `_eligible_notification`.
abbrev pub is_eligible : Time → NotificationEvent → Bool
is_eligible now n =
    str_eq n.channel notification_channel_discord
    && (is_waiting n.status
        && (ltb n.attempts max_notification_attempts && is_due now n.next_attempt_at))

-- ORDER BY created_at, id
abbrev pub event_precedes : NotificationEvent → NotificationEvent → Bool
event_precedes a b =
    ltb a.created_at b.created_at || (a.created_at == b.created_at && ltb a.id b.id)

abbrev sooner : NotificationEvent → Option NotificationEvent → NotificationEvent
sooner n none = n
sooner n (some k) = if event_precedes k n then k else n

unfoldable pub next_eligible : Time → List NotificationEvent → Option NotificationEvent
next_eligible now [] = none
next_eligible now (n ∷ ns) =
    let rest = next_eligible now ns in if is_eligible now n then some (sooner n rest) else rest

unfoldable pub find_event : ℕ → List NotificationEvent → Option NotificationEvent
find_event i [] = none
find_event i (n ∷ ns) = let rest = find_event i ns in if n.id == i then some n else rest

abbrev pub edit_event :
    ℕ → (NotificationEvent → NotificationEvent) → NotificationEvent → NotificationEvent
edit_event i f n = if n.id == i then f n else n

unfoldable pub update_event :
    ℕ → (NotificationEvent → NotificationEvent) → List NotificationEvent → List NotificationEvent
update_event i f ns = map (edit_event i f) ns

abbrev pub mark_sending : Time → NotificationEvent → NotificationEvent
mark_sending now n = record n {
  status = NotificationStatus.sending;
  attempts = n.attempts + 1;
  updated_at = now;
  next_attempt_at = none;
  delivered_at = none;
  last_error = none;
}

-- `WHERE id = … AND status = 'PENDING'`
abbrev pub mark_if_waiting : Time → NotificationEvent → NotificationEvent
mark_if_waiting now n = if is_waiting n.status then mark_sending now n else n

abbrev claim_event : Time → Option NotificationEvent → Db → Option NotificationEvent × Db
claim_event now none db = (none, db)
claim_event now (some n) db = (
  some (mark_sending now n),
  record db { notifications = update_event n.id (mark_if_waiting now) db.notifications },
)

unfoldable pub claim_next_notification : Time → Db → Option NotificationEvent × Db
unfolding next_eligible update_event
claim_next_notification now db = claim_event now (next_eligible now db.notifications) db

-- One round of the loop of `reconcile_sending_notifications`.
abbrev pub reconcile : Time → NotificationEvent → NotificationEvent
reconcile now n =
    if ltb n.attempts max_notification_attempts
    then record n {
      updated_at = now;
      status = NotificationStatus.pending;
      next_attempt_at = some now;
      last_error = some DeliveryErrorKind.interrupted;
    }
    else record n {
      updated_at = now;
      status = NotificationStatus.failed;
      next_attempt_at = none;
      last_error = some DeliveryErrorKind.interrupted;
    }

abbrev pub is_sending_discord : NotificationEvent → Bool
is_sending_discord n = str_eq n.channel notification_channel_discord && is_sending n.status

abbrev pub reconcile_if : Time → NotificationEvent → NotificationEvent
reconcile_if now n = if is_sending_discord n then reconcile now n else n

-- The two counters of `NotificationReconciliation`: requeued, failed.
unfoldable pub reconciliation : List NotificationEvent → ℕ × ℕ
reconciliation [] = (0, 0)
reconciliation (n ∷ ns) =
    let (requeued, failed) = reconciliation ns in
    if is_sending_discord n
    then (if ltb n.attempts max_notification_attempts
        then (requeued + 1, failed)
        else (requeued, failed + 1))
    else (requeued, failed)

unfoldable pub reconcile_sending_notifications : Time → Db → (ℕ × ℕ) × Db
unfolding reconciliation
reconcile_sending_notifications now db = (
  reconciliation db.notifications,
  record db { notifications = map (reconcile_if now) db.notifications },
)

-- How `webhook.send` ended; an exception of another class counts as `unavailable`.
pub data Delivery : Type 0 where
  delivered : Delivery
  refused : DeliveryErrorKind → Delivery

abbrev pub mark_sent : Time → NotificationEvent → NotificationEvent
mark_sent now n =
    if is_sending n.status
    then record n {
      status = NotificationStatus.sent;
      updated_at = now;
      delivered_at = some now;
      next_attempt_at = none;
      last_error = none;
    }
    else n

abbrev pub mark_refused : DeliveryErrorKind → Time → NotificationEvent → NotificationEvent
mark_refused kind now n =
    if is_sending n.status
    then (if is_transient kind && ltb n.attempts max_notification_attempts
        then record n {
          updated_at = now;
          delivered_at = none;
          last_error = some kind;
          status = NotificationStatus.pending;
          next_attempt_at = some (now + retry_delay n.attempts);
        }
        else record n {
          updated_at = now;
          delivered_at = none;
          last_error = some kind;
          status = NotificationStatus.failed;
          next_attempt_at = none;
        })
    else n

-- `_finish_success` and `_finish_failure`
abbrev pub finish : Delivery → Time → NotificationEvent → NotificationEvent
finish delivered now n = mark_sent now n
finish (refused kind) now n = mark_refused kind now n

unfoldable pub process_claimed : Delivery → Time → Option NotificationEvent × Db → Bool × Db
process_claimed outcome now (none, db) = (false, db)
process_claimed outcome now (some n, db) =
    (true, record db { notifications = update_event n.id (finish outcome now) db.notifications })

-- `DiscordNotificationDispatcher.process_next`, given how the delivery ends if there is one.
unfoldable pub process_next_notification : Delivery → Time → Db → Bool × Db
unfolding process_claimed claim_next_notification
process_next_notification outcome now db =
    process_claimed outcome now (claim_next_notification now db)
