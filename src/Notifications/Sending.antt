-- ===== src/Notifications/Sending.antt =====
-- Proofs on `send` of src/notifications/notifications.service.ts.
use subscription_billing_eng.Prelude.{
  true, String, some, ◌≡◌, ◌≢◌, ◌⊎◌, refl, inl, inr, ap, arith, str_eq,
}
use subscription_billing_eng.Prelude.Table.{find-save, find-holds}
use subscription_billing_eng.World.Frame.{str_eq-join}
use subscription_billing_eng.World.{World, Result-cases, ok}
use subscription_billing_eng.Entities.{Notification, NotificationChannel, NotificationStatus}
use subscription_billing_eng.Notifications.{
  send, send_by_channel, save_notification, notification_by_id,
}

-- A channel keeps the identifier of the notification, the table and the clock.
send_by_channel-id :
    (n : Notification) (w : World) {n' : Notification}
    → (send_by_channel n w).0 ≡ ok n'
    → n'.id ≡ n.id
unfolding send_by_channel
send_by_channel-id n w e = ground arith

send_by_channel-notifications :
    (n : Notification) (w : World) → (send_by_channel n w).1.notifications ≡ w.notifications
unfolding send_by_channel
send_by_channel-notifications n w = ground arith

send_by_channel-now : (n : Notification) (w : World) → (send_by_channel n w).1.now ≡ w.now
unfolding send_by_channel
send_by_channel-now n w = ground arith

-- An e-mail is handed to the mailer without an exception.
send_by_channel-email :
    (n : Notification) (w : World)
    → n.channel ≡ NotificationChannel.email
    → (send_by_channel n w).0 ≡ ok n
unfolding send_by_channel
send_by_channel-email n w e = ground arith

-- The row that a save stores under the identifier of the notification.
find-save_notification :
    (id : String) (n n' : Notification) (w v : World)
    → notification_by_id id w ≡ some n
    → n'.id ≡ n.id
    → v.notifications ≡ w.notifications
    → notification_by_id id (save_notification n' v) ≡ some n'
unfolding notification_by_id save_notification
find-save_notification id n n' w v found same kept =
    find-save (λ x. x.id) (λ x. str_eq x.id id) n' v.notifications (rw same holds)
      (λ x h. rw same (str_eq-join x.id n.id id h holds))
  where
    holds : str_eq n.id id ≡ true
    holds = find-holds (λ x. str_eq x.id id) w.notifications found

-- A stored notification that the worker sends is settled: it is found sent at that time, whatever
-- the mailer did with an e-mail, or failed, and then it was not an e-mail.
pub send_settles :
    (id : String) (w : World) {n : Notification}
    → notification_by_id id w ≡ some n
    → (n' : Notification) × (notification_by_id id (send id w) ≡ some n')
      × (((n'.status ≡ NotificationStatus.sent) × (n'.sent_at ≡ some w.now))
          ⊎ ((n'.status ≡ NotificationStatus.failed) × (n.channel ≢ NotificationChannel.email)))
send_settles id w {n} found = elim (Result-cases (send_by_channel n w).0) [
  | inl (x, thrown) ↦
      let n' : Notification = record n { status = NotificationStatus.failed } in
      let e : send id w ≡ save_notification n' (send_by_channel n w).1 =
        unfold send in ground arith in
      (
        n',
        rw e (
            find-save_notification id n n' w (send_by_channel n w).1 found refl
              (send_by_channel-notifications n w)),
        inr (refl, λ mail. cc (send_by_channel-email n w mail)),
      )
  | inr (m, done) ↦
      let n' : Notification = record m {
        status = NotificationStatus.sent;
        sent_at = some (send_by_channel n w).1.now;
      } in
      let e : send id w ≡ save_notification n' (send_by_channel n w).1 =
        unfold send in ground arith in
      (
        n',
        rw e (
            find-save_notification id n n' w (send_by_channel n w).1 found
              (send_by_channel-id n w done) (send_by_channel-notifications n w)),
        inl (refl, ap some (send_by_channel-now n w)),
      )
]
