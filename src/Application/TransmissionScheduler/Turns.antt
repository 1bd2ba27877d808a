-- ===== src/Application/TransmissionScheduler/Turns.antt =====
-- src/application/transmission_scheduler.cpp: what `pump` does with the front message.
use lora_messenger.Common.{
  ℕ, ◌+◌, ◌%◌, Bool, true, false, not, ◌&&◌, ◌||◌, Option, none, some, List, [], length, get_or,
  set, ltb, leb, ◌==◌, nat_eq, if◌then◌else◌,
}
use lora_messenger.Core.Uuid.{message_id_eq}
use lora_messenger.Protocol.Limits.{Bytes}
use lora_messenger.Application.TransmissionScheduler.Messages.{
  PendingMessage, DatagramSendStatus, RadioTransmitStatus, Medium, saturating_add, scaled_jitter,
  accepted, allowed, closed_status, deferred, disconnected, invalid_datagram, invalid_transmit,
  locked, would_block,
}

-- What becomes of the front message, without the counters: it is kept with these fields, it is
-- dropped, it has failed, or it is kept for the repetition after its broadcast.
pub data Turn : Type 0 where
  keep : PendingMessage → Turn
  drop_front : Turn
  fail_front : Turn
  announce : PendingMessage → Turn

abbrev pub moved : PendingMessage → ℕ → ℕ → ℕ → List ℕ → Bool → PendingMessage
moved p fragment_index jitter_index due offer_counts repeat_pass = record {
  message_id = p.message_id;
  mtu = p.mtu;
  frames = p.frames;
  jitter = p.jitter;
  offer_counts = offer_counts;
  fragment_index = fragment_index;
  jitter_index = jitter_index;
  due = due;
  deadline = p.deadline;
  repeat_pass = repeat_pass;
}

-- A message that cannot go on: a failure before the broadcast, the end of the repetition after it.
abbrev pub give_up : PendingMessage → Turn
give_up p = if p.repeat_pass then drop_front else fail_front

-- The repetition passes over the fragment.
abbrev pub skip_fragment : PendingMessage → List ℕ → ℕ → Turn
skip_fragment p counts now =
    if p.fragment_index + 1 == length p.frames
    then drop_front
    else keep (moved p (p.fragment_index + 1) p.jitter_index now counts p.repeat_pass)

-- `pending.jitter[pending.jitter_index++]`
abbrev pub next_jitter : PendingMessage → ℕ
next_jitter p = get_or p.jitter p.jitter_index 0

unfoldable pub after_backpressure : PendingMessage → List ℕ → ℕ → Turn
unfolding saturating_add scaled_jitter
after_backpressure p counts now =
    if leb 2 (get_or counts p.fragment_index 0)
    then (if not p.repeat_pass then fail_front else skip_fragment p counts now)
    else keep (
        moved p p.fragment_index (p.jitter_index + 1)
          (saturating_add now (100 + scaled_jitter (next_jitter p) 100)) counts p.repeat_pass)

unfoldable pub after_accepted : PendingMessage → List ℕ → ℕ → Turn
unfolding saturating_add scaled_jitter
after_accepted p counts now =
    if ltb (p.fragment_index + 1) (length p.frames)
    then keep (
        moved p (p.fragment_index + 1) (p.jitter_index + 1)
          (saturating_add now (scaled_jitter (next_jitter p) 50)) counts p.repeat_pass)
    else (if not p.repeat_pass
        then announce (
            moved p 0 (p.jitter_index + 1)
              (saturating_add now (1000 + scaled_jitter (next_jitter p) 250)) counts true)
        else drop_front)

unfoldable pub after_offer : PendingMessage → List ℕ → ℕ → DatagramSendStatus → Turn
unfolding after_backpressure after_accepted
after_offer p counts now accepted = after_accepted p counts now
after_offer p counts now would_block = after_backpressure p counts now
after_offer p counts now disconnected = after_backpressure p counts now
after_offer p counts now closed_status = give_up p
after_offer p counts now invalid_datagram = give_up p

-- What a call of `pump` does with the front message: what it offers to the transport and what that
-- answers, whether the policy defers it, and what becomes of it.
pub record Front : Type 0 where
  pub offer : Option (Bytes × DatagramSendStatus)
  pub is_deferred : Bool
  pub turn : Turn

abbrev pub quiet : Turn → Front
quiet turn = record { offer = none; is_deferred = false; turn = turn }

abbrev pub current_frame : PendingMessage → Bytes
current_frame p = get_or p.frames p.fragment_index []

-- The offer counts with one more offer of the current fragment, in a `std::uint8_t`.
abbrev pub counted : PendingMessage → List ℕ
counted p =
    set p.offer_counts p.fragment_index ((get_or p.offer_counts p.fragment_index 0 + 1) % 256)

unfoldable pub offer_frame : Medium → ℕ → PendingMessage → Front
unfolding after_offer
offer_frame medium now p =
    let frame = current_frame p in
    let status = medium.try_send frame in
    record {
      offer = some (frame, status);
      is_deferred = false;
      turn = after_offer p (counted p) now status;
    }

-- What follows from the policy's answer.
unfoldable pub by_policy : Medium → ℕ → PendingMessage → RadioTransmitStatus → ℕ → Front
unfolding offer_frame saturating_add
by_policy medium now p allowed not_before = offer_frame medium now p
by_policy medium now p deferred not_before = record {
  offer = none;
  is_deferred = true;
  turn = keep (
      moved p p.fragment_index p.jitter_index
        (if ltb now not_before then not_before else saturating_add now 100) p.offer_counts
        p.repeat_pass);
}
by_policy medium now p locked not_before = quiet (give_up p)
by_policy medium now p invalid_transmit not_before = quiet (give_up p)

unfoldable pub pump_front : Medium → ℕ → PendingMessage → Front
unfolding by_policy
pump_front medium now p =
    if leb p.deadline now
    then quiet (give_up p)
    else (if ltb now p.due
        then quiet (keep p)
        else (if not (medium.maximum_datagram_size == p.mtu) || medium.closed
            then quiet (give_up p)
            else (if p.repeat_pass && leb 2 (get_or p.offer_counts p.fragment_index 0)
                then quiet (skip_fragment p p.offer_counts now)
                else (let decision = medium.evaluate_transmit now (length (current_frame p)) in
                    by_policy medium now p decision.status decision.not_before_tick))))
