-- ===== src/Notifications/Progress.antt =====
-- Every delivery attempt of app/notifications/service.py uses up work: the dispatcher comes to rest.
use palworld_manager.Prelude.{
  ℕ, ◌+◌, ◌-◌, ◌≤◌, ◌<◌, ◌≡◌, refl, Bool, true, ◌&&◌, ◌||◌, Option, none, some, List, [], ◌∷◌, map,
  arith, ◌==◌, inl, inr, Option-cases, Bool-cases, if◌then◌else◌, exists,
}
use palworld_manager.Db.Rows.{Time, NotificationEvent, Db}
use palworld_manager.Notifications.{
  max_notification_attempts, is_waiting, is_sending, is_eligible, next_eligible, edit_event,
  update_event, mark_if_waiting, claim_next_notification, Delivery, delivered, refused, finish,
  process_claimed, process_next_notification,
}

-- The attempts that a row may still use.
abbrev pub attempts_left : NotificationEvent → ℕ
attempts_left n =
    if is_waiting n.status || is_sending n.status then max_notification_attempts - n.attempts else 0

abbrev pub work : List NotificationEvent → ℕ
work [] = 0
work (n ∷ ns) = attempts_left n + work ns

abbrev is_target : ℕ → Time → NotificationEvent → Bool
is_target i now n = n.id == i && is_eligible now n

next_eligible-exists :
    (now : Time) (ns : List NotificationEvent) {n : NotificationEvent}
    → next_eligible now ns ≡ some n
    → exists (is_target n.id now) ns ≡ true
unfolding next_eligible
next_eligible-exists now [] h = ground arith
next_eligible-exists now (m ∷ ns) h = elim (Option-cases (next_eligible now ns)) [
  | inl e ↦ ground arith
  | inr (k, e) ↦ ground (arith, next_eligible-exists now ns e)
]

-- One attempt on the row `i`, seen as a change of each row.
abbrev attempt : ℕ → Delivery → Time → NotificationEvent → NotificationEvent
attempt i outcome now n = edit_event i (finish outcome now) (edit_event i (mark_if_waiting now) n)

attempt-≤ :
    (i : ℕ) (outcome : Delivery) (now : Time) (n : NotificationEvent)
    → attempts_left (attempt i outcome now n) ≤ attempts_left n
attempt-≤ i delivered now n = ground arith
attempt-≤ i (refused kind) now n = ground arith

attempt-< :
    (i : ℕ) (outcome : Delivery) (now : Time) (n : NotificationEvent)
    → is_target i now n ≡ true
    → attempts_left (attempt i outcome now n) < attempts_left n
attempt-< i delivered now n h = ground arith
attempt-< i (refused kind) now n h = ground arith

abbrev attempt_all : ℕ → Delivery → Time → List NotificationEvent → List NotificationEvent
attempt_all i outcome now ns =
    map (edit_event i (finish outcome now)) (map (edit_event i (mark_if_waiting now)) ns)

work-≤ :
    (i : ℕ) (outcome : Delivery) (now : Time) (ns : List NotificationEvent)
    → work (attempt_all i outcome now ns) ≤ work ns
work-≤ i outcome now [] = omega arith
work-≤ i outcome now (n ∷ ns) =
    let here = attempt-≤ i outcome now n in let rest = work-≤ i outcome now ns in omega arith

work-< :
    (i : ℕ) (outcome : Delivery) (now : Time) (ns : List NotificationEvent)
    → exists (is_target i now) ns ≡ true
    → work (attempt_all i outcome now ns) < work ns
work-< i outcome now [] h = ground arith
work-< i outcome now (n ∷ ns) h = elim (Bool-cases (is_target i now n)) [
  | inl e ↦
      let here = attempt-< i outcome now n e in let rest = work-≤ i outcome now ns in omega arith
  | inr e ↦
      let here = attempt-≤ i outcome now n in
      let rest = work-< i outcome now ns (ground arith) in omega arith
]

process-work :
    (outcome : Delivery) (now : Time) (db : Db) (chosen : Option NotificationEvent)
    → next_eligible now db.notifications ≡ chosen
    → (process_next_notification outcome now db).0 ≡ true
    → work (process_next_notification outcome now db).1.notifications < work db.notifications
unfolding process_next_notification process_claimed claim_next_notification update_event
process-work outcome now db none e tried = let impossible : ⊥ = ground arith in absurd impossible
process-work outcome now db (some n) e tried =
    rw e (work-< n.id outcome now db.notifications (next_eligible-exists now db.notifications e))

-- When `process_next_notification` reports that it tried a notification, however the delivery
-- ended, strictly fewer attempts are left in the outbox than before. So, as long as no other part
-- writes to the outbox, the dispatcher's loop reaches `false` after at most three rounds for each
-- row.
pub process_next_notification-work :
    (outcome : Delivery) (now : Time) (db : Db)
    → (process_next_notification outcome now db).0 ≡ true
    → work (process_next_notification outcome now db).1.notifications < work db.notifications
process_next_notification-work outcome now db tried =
    process-work outcome now db (next_eligible now db.notifications) refl tried
