-- ===== src/Notifications/Dispatch.antt =====
-- The life of one notification of app/notifications/service.py under the dispatcher.
use palworld_manager.Prelude.{
  ℕ, ◌≤◌, ◌<◌, ◌≡◌, refl, true, Option, none, some, List, [], ◌∷◌, ◌++◌, map, arith, str_eq,
}
use palworld_manager.Db.Enums.{NotificationStatus, EventType}
use palworld_manager.Db.Rows.{Time, NotificationEvent, Db}
use palworld_manager.Notifications.{
  max_notification_attempts, notification_channel_discord, enqueue_discord_notification, is_waiting,
  is_sending, next_eligible, edit_event, update_event, claim_next_notification, reconcile_if,
  reconcile_sending_notifications, Delivery, delivered, refused, finish, process_claimed,
  process_next_notification, mark_if_waiting,
}

-- What the table's CHECK constraint and the dispatcher rely on, for one row: the attempts stay in
-- range, and a row that waits can still be tried.
pub record EventInv (n : NotificationEvent) : Type 0 where
  pub attempts_range : n.attempts ≤ max_notification_attempts
  pub discord : str_eq n.channel notification_channel_discord ≡ true
  pub waiting_has_attempts : is_waiting n.status ≡ true → n.attempts < max_notification_attempts
  pub sending_tried : is_sending n.status ≡ true → 0 < n.attempts
  pub sent_delivered : (t : Time) → n.delivered_at ≡ some t → n.status ≡ NotificationStatus.sent

abbrev pub AllEvents : (NotificationEvent → Type 0) → List NotificationEvent → Type 0
AllEvents P [] = Unit
AllEvents P (n ∷ ns) = P n × AllEvents P ns

AllEvents-map :
    (P : NotificationEvent → Type 0) (g : NotificationEvent → NotificationEvent)
    (ns : List NotificationEvent)
    → ((n : NotificationEvent) → P n → P (g n))
    → AllEvents P ns
    → AllEvents P (map g ns)
AllEvents-map P g [] keep h = tt
AllEvents-map P g (n ∷ ns) keep h = (keep n h.0, AllEvents-map P g ns keep h.1)

AllEvents-append :
    (P : NotificationEvent → Type 0) (ns : List NotificationEvent) (n : NotificationEvent)
    → AllEvents P ns
    → P n
    → AllEvents P (ns ++ n ∷ [])
AllEvents-append P [] n h p = (p, tt)
AllEvents-append P (m ∷ ns) n h p = (h.0, AllEvents-append P ns n h.1 p)

reconcile-EventInv :
    (now : Time) (n : NotificationEvent) → EventInv n → EventInv (reconcile_if now n)
reconcile-EventInv now n v = ground arith

finish-EventInv :
    (outcome : Delivery) (now : Time) (n : NotificationEvent)
    → EventInv n
    → EventInv (finish outcome now n)
finish-EventInv delivered now n v = ground arith
finish-EventInv (refused kind) now n v = ground arith

mark_if_waiting-EventInv :
    (now : Time) (n : NotificationEvent) → EventInv n → EventInv (mark_if_waiting now n)
mark_if_waiting-EventInv now n v = ground arith

update_event-EventInv :
    (i : ℕ) (f : NotificationEvent → NotificationEvent) (ns : List NotificationEvent)
    → ((n : NotificationEvent) → EventInv n → EventInv (f n))
    → AllEvents EventInv ns
    → AllEvents EventInv (update_event i f ns)
unfolding update_event
update_event-EventInv i f ns keep h =
    AllEvents-map EventInv (edit_event i f) ns (λ n v. ground (arith, keep n v)) h

-- What the manager does to the outbox: another part adds an event, the dispatcher tries one, and at
-- its start it puts the interrupted ones back.
pub data Operation : Type 0 where
  enqueue : EventType → Option ℕ → Time → Operation
  process : Delivery → Time → Operation
  restart : Time → Operation

abbrev pub apply : Operation → Db → Db
apply (enqueue event_type job_id now) db = enqueue_discord_notification event_type job_id now db
apply (process outcome now) db = (process_next_notification outcome now db).1
apply (restart now) db = (reconcile_sending_notifications now db).1

abbrev pub apply_all : List Operation → Db → Db
apply_all [] db = db
apply_all (o ∷ os) db = apply_all os (apply o db)

process-EventInv :
    (outcome : Delivery) (now : Time) (db : Db) (chosen : Option NotificationEvent)
    → next_eligible now db.notifications ≡ chosen
    → AllEvents EventInv db.notifications
    → AllEvents EventInv (process_next_notification outcome now db).1.notifications
unfolding process_next_notification process_claimed claim_next_notification
process-EventInv outcome now db none e h = rw e h
process-EventInv outcome now db (some n) e h = rw e (
    update_event-EventInv n.id (finish outcome now)
      (update_event n.id (mark_if_waiting now) db.notifications) (finish-EventInv outcome now)
      (update_event-EventInv n.id (mark_if_waiting now) db.notifications
        (mark_if_waiting-EventInv now) h))

apply-EventInv :
    (o : Operation) (db : Db)
    → AllEvents EventInv db.notifications
    → AllEvents EventInv (apply o db).notifications
unfolding enqueue_discord_notification reconcile_sending_notifications
apply-EventInv (enqueue event_type job_id now) db h =
    AllEvents-append EventInv db.notifications _ h (ground arith)
apply-EventInv (process outcome now) db h =
    process-EventInv outcome now db (next_eligible now db.notifications) refl h
apply-EventInv (restart now) db h =
    AllEvents-map EventInv (reconcile_if now) db.notifications (reconcile-EventInv now) h

-- Whatever sequence of new events, delivery attempts and restarts is run on an outbox whose rows
-- satisfy `EventInv`, its rows satisfy it afterwards: no row has been tried more than three times,
-- a row that waits has an attempt left, a row that is being sent has been tried, and only a sent
-- row has a delivery time.
pub apply_all-EventInv :
    (os : List Operation) (db : Db)
    → AllEvents EventInv db.notifications
    → AllEvents EventInv (apply_all os db).notifications
apply_all-EventInv [] db h = h
apply_all-EventInv (o ∷ os) db h = apply_all-EventInv os (apply o db) (apply-EventInv o db h)
