-- ===== src/Application/TransmissionScheduler/Events.antt =====
-- Every message that waits in the queue has one terminal event, and none stays behind its deadline.
use lora_messenger.Common.{
  ap, ap₂, ◌∙◌, ℕ, ◌+◌, ◌≤◌, ◌≡◌, refl, Bool, true, false, not, ◌&&◌, Option, none, some, List, [],
  ◌∷◌, length, ◌==◌, nat_eq, All, arith,
}
use lora_messenger.Core.Uuid.{MessageId, message_id_eq}
use lora_messenger.Application.TransmissionScheduler.{
  take_turn, pump_pending, pump, one_if, counted_metrics,
}
use lora_messenger.Application.TransmissionScheduler.Turns.{
  Turn, keep, drop_front, fail_front, announce, skip_fragment, give_up, after_backpressure,
  after_accepted, after_offer, offer_frame, by_policy, pump_front, counted, current_frame,
}
use lora_messenger.Application.TransmissionScheduler.Messages.{
  PendingMessage, TransmissionScheduler, OutboundEvent, Medium, DatagramSendStatus, accepted,
  would_block, disconnected, closed_status, invalid_datagram, RadioTransmitStatus, allowed,
  deferred, locked, invalid_transmit, with_pending,
}

-- The message is reported if and only if its first pass ends, and keeps its identifier.
abbrev Reports : PendingMessage → Turn → Type 0
Reports p (keep q) = (q.message_id ≡ p.message_id) × (q.repeat_pass ≡ p.repeat_pass)
Reports p drop_front = p.repeat_pass ≡ true
Reports p fail_front = p.repeat_pass ≡ false
Reports p (announce q) =
    (p.repeat_pass ≡ false) × (q.message_id ≡ p.message_id) × (q.repeat_pass ≡ true)

give_up-Reports : (p : PendingMessage) → Reports p (give_up p)
give_up-Reports p = ground arith

skip_fragment-Reports :
    (p : PendingMessage) (counts : List ℕ) (now : ℕ)
    → p.repeat_pass ≡ true
    → Reports p (skip_fragment p counts now)
skip_fragment-Reports p counts now e = ground (arith, e)

after_offer-Reports :
    (p : PendingMessage) (counts : List ℕ) (now : ℕ) (status : DatagramSendStatus)
    → Reports p (after_offer p counts now status)
unfolding after_offer after_backpressure after_accepted
after_offer-Reports p counts now accepted = ground arith
after_offer-Reports p counts now would_block = ground arith
after_offer-Reports p counts now disconnected = ground arith
after_offer-Reports p counts now closed_status = ground arith
after_offer-Reports p counts now invalid_datagram = ground arith

by_policy-Reports :
    (medium : Medium) (now : ℕ) (p : PendingMessage) (status : RadioTransmitStatus) (not_before : ℕ)
    → Reports p (by_policy medium now p status not_before).turn
unfolding by_policy offer_frame
by_policy-Reports medium now p allowed not_before =
    after_offer-Reports p (counted p) now (medium.try_send (current_frame p))
by_policy-Reports medium now p deferred not_before = (refl, refl)
by_policy-Reports medium now p locked not_before = give_up-Reports p
by_policy-Reports medium now p invalid_transmit not_before = give_up-Reports p

pump_front-Reports :
    (medium : Medium) (now : ℕ) (p : PendingMessage) → Reports p (pump_front medium now p).turn
unfolding pump_front
pump_front-Reports medium now p =
    let decision = medium.evaluate_transmit now (length (current_frame p)) in
    ground (
      arith,
      give_up-Reports p,
      skip_fragment-Reports p p.offer_counts now,
      by_policy-Reports medium now p decision.status decision.not_before_tick,
    )

abbrev waiting : MessageId → Bool → MessageId → ℕ
waiting id repeat_pass message_id = one_if (not repeat_pass && message_id == id)

-- The messages of an identifier that have had no event.
unfoldable pub unreported : MessageId → List PendingMessage → ℕ
unreported id [] = 0
unreported id (p ∷ rest) = waiting id p.repeat_pass p.message_id + unreported id rest

-- The events of an identifier among the answers.
abbrev pub reported : MessageId → Option OutboundEvent → ℕ
reported id none = 0
reported id (some event) = one_if (event.message_id == id)

unfoldable pub reports : MessageId → List (Option OutboundEvent) → ℕ
reports id [] = 0
reports id (answer ∷ answers) = reported id answer + reports id answers

-- Calls of `pump`, each with the answers of the ports and its tick.
unfoldable pub pump_all :
    List (Medium × ℕ) → TransmissionScheduler → List (Option OutboundEvent) × TransmissionScheduler
pump_all [] s = ([], s)
pump_all ((medium, now) ∷ calls) s =
    let (answer, after) = pump medium now s in
    let (answers, last) = pump_all calls after in (answer ∷ answers, last)

take_turn-reported :
    (id : MessageId) (s : TransmissionScheduler) (p : PendingMessage) (rest : List PendingMessage)
    (turn : Turn)
    → Reports p turn
    → let (answer, after) = take_turn s p rest turn in
      reported id answer + unreported id after.pending ≡ unreported id (p ∷ rest)
unfolding take_turn with_pending unreported
take_turn-reported id s p rest (keep q) h = omega (arith, ap₂ (waiting id) h.1 h.0)
take_turn-reported id s p rest drop_front h =
    omega (arith, ap (λ (r : Bool). waiting id r p.message_id) h)
take_turn-reported id s p rest fail_front h =
    omega (arith, ap (λ (r : Bool). waiting id r p.message_id) h)
take_turn-reported id s p rest (announce q) h = omega (
  arith,
  ap (λ (r : Bool). waiting id r p.message_id) h.0,
  ap (λ (r : Bool). waiting id r q.message_id) h.2,
)

pump_pending-reported :
    (id : MessageId) (medium : Medium) (now : ℕ) (s : TransmissionScheduler)
    (pending : List PendingMessage)
    → s.pending ≡ pending
    → let (answer, after) = pump_pending medium now s pending in
      reported id answer + unreported id after.pending ≡ unreported id pending
unfolding pump_pending unreported
pump_pending-reported id medium now s [] e = omega (arith, ap (unreported id) e)
pump_pending-reported id medium now s (p ∷ rest) e =
    take_turn-reported id
      (record {
        pending = s.pending;
        metrics = counted_metrics s.metrics (pump_front medium now p);
      })
      p rest (pump_front medium now p).turn (pump_front-Reports medium now p)

-- In any calls of `pump`, whatever the ports answer and whatever the ticks: the events of an
-- identifier and its messages that still wait for theirs are together as many as waited before. So a
-- message whose identifier no other has is not reported twice, nor dropped without an event.
pub pump_all-reports :
    (id : MessageId) (calls : List (Medium × ℕ)) (s : TransmissionScheduler)
    → let (answers, last) = pump_all calls s in
      reports id answers + unreported id last.pending ≡ unreported id s.pending
unfolding pump_all reports pump
pump_all-reports id [] s = omega arith
pump_all-reports id ((medium, now) ∷ calls) s = omega (
  arith,
  pump_all-reports id calls (pump medium now s).1,
  pump_pending-reported id medium now s s.pending refl,
)

abbrev pub Due : ℕ → PendingMessage → Type 0
Due t p = p.deadline ≤ t

abbrev pub From : ℕ → Medium × ℕ → Type 0
From t call = t ≤ call.1

-- A call at or after the deadline of the front message takes it out of the queue.
pump_pending_late :
    (medium : Medium) (now : ℕ) (s : TransmissionScheduler) (p : PendingMessage)
    (rest : List PendingMessage)
    → p.deadline ≤ now
    → (pump_pending medium now s (p ∷ rest)).1.pending ≡ rest
unfolding pump_pending pump_front take_turn with_pending
pump_pending_late medium now s p rest h = ground (arith, h)

pump_all_late :
    (t : ℕ) (calls : List (Medium × ℕ)) (s : TransmissionScheduler) (pending : List PendingMessage)
    → s.pending ≡ pending
    → All (From t) calls
    → All (Due t) pending
    → length pending ≤ length calls
    → (pump_all calls s).1.pending ≡ []
unfolding pump_all pump
pump_all_late t [] s [] e hc hp h = e
pump_all_late t [] s (p ∷ rest) e hc hp h = absurd (omega arith)
pump_all_late t ((medium, now) ∷ calls) s [] e hc hp h =
    pump_all_late t calls (pump_pending medium now s s.pending).1 []
      (ap (λ (l : List PendingMessage). (pump_pending medium now s l).1.pending) e ∙ e) hc.1 tt
      (omega arith)
pump_all_late t ((medium, now) ∷ calls) s (p ∷ rest) e hc hp h =
    pump_all_late t calls (pump_pending medium now s s.pending).1 rest
      (ap (λ (l : List PendingMessage). (pump_pending medium now s l).1.pending) e
        ∙ pump_pending_late medium now s p rest (omega (arith, hc.0, hp.0)))
      hc.1 hp.1 (omega (arith, h))

-- When all deadlines have passed, at least as many calls of `pump` as there are messages empty the
-- queue, whatever the ports answer, and report each message that waited for its event.
pub pump_all-queue_empty :
    (t : ℕ) (calls : List (Medium × ℕ)) (s : TransmissionScheduler)
    → All (From t) calls
    → All (Due t) s.pending
    → length s.pending ≤ length calls
    → let (answers, last) = pump_all calls s in
      (last.pending ≡ []) × ((id : MessageId) → reports id answers ≡ unreported id s.pending)
unfolding unreported
pump_all-queue_empty t calls s hc hp h =
    let empty = pump_all_late t calls s s.pending refl hc hp h in
    (empty, λ id. omega (arith, pump_all-reports id calls s, ap (unreported id) empty))
