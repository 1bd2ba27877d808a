-- ===== src/Application/TransmissionScheduler.antt =====
-- src/application/transmission_scheduler.h and transmission_scheduler.cpp: the queue of outgoing
-- messages. The transport and the radio policy of src/ports are parameters: what they answer in this
-- call of `pump`.
pub mod Turns
pub mod Messages
pub mod Invariant
pub mod Queue
pub mod Events
pub mod Tests
use lora_messenger.Common.{
  ℕ, zero, suc, ◌+◌, ◌-◌, ◌*◌, ◌/◌, ◌%◌, ◌^◌, max, Bool, true, false, not, ◌&&◌, ◌||◌, Option, none,
  some, List, [], ◌∷◌, ◌++◌, length, get_or, set, replicate, ltb, leb, ◌==◌, nat_eq, if◌then◌else◌,
}
use lora_messenger.Core.Result.{Result, success, failure}
use lora_messenger.Core.Uuid.{MessageId, message_id_eq}
use lora_messenger.Model.Post.{PostPayload}
use lora_messenger.Protocol.Limits.{Bytes, minimum_transport_mtu, maximum_transport_mtu}
use lora_messenger.Protocol.Fragmenter.{FragmentError, fragment_post}
use lora_messenger.Application.TransmissionScheduler.Messages.{
  OutboundEvent, SchedulerMetrics, PendingMessage, TransmissionScheduler, DatagramSendStatus,
  RadioTransmitStatus, Medium, saturating_add, scaled_jitter, with_pending, accepted, allowed,
  broadcast, closed_status, deferred, disconnected, failed, invalid_datagram, invalid_transmit,
  locked, would_block,
}
use lora_messenger.Application.TransmissionScheduler.Turns.{
  Turn, Front, pump_front, announce, drop_front, fail_front, keep,
}

abbrev pub one_if : Bool → ℕ
one_if true = 1
one_if false = 0

abbrev pub is_offer : Option (Bytes × DatagramSendStatus) → Bool
is_offer none = false
is_offer (some offer) = true

abbrev pub is_backpressure_status : DatagramSendStatus → Bool
is_backpressure_status accepted = false
is_backpressure_status would_block = true
is_backpressure_status disconnected = true
is_backpressure_status closed_status = false
is_backpressure_status invalid_datagram = false

abbrev pub is_backpressure : Option (Bytes × DatagramSendStatus) → Bool
is_backpressure none = false
is_backpressure (some offer) = is_backpressure_status offer.1

abbrev pub is_accepted_status : DatagramSendStatus → Bool
is_accepted_status accepted = true
is_accepted_status would_block = false
is_accepted_status disconnected = false
is_accepted_status closed_status = false
is_accepted_status invalid_datagram = false

abbrev pub is_accepted : Option (Bytes × DatagramSendStatus) → Bool
is_accepted none = false
is_accepted (some offer) = is_accepted_status offer.1

abbrev pub is_failure : Turn → Bool
is_failure (keep p) = false
is_failure drop_front = false
is_failure fail_front = true
is_failure (announce p) = false

abbrev pub is_announcement : Turn → Bool
is_announcement (keep p) = false
is_announcement drop_front = false
is_announcement fail_front = false
is_announcement (announce p) = true

-- The counters that `pump` raises; each wraps at 64 bits.
abbrev pub counted_metrics : SchedulerMetrics → Front → SchedulerMetrics
counted_metrics m front = record {
  pending_messages = m.pending_messages;
  high_water_messages = m.high_water_messages;
  transport_offers = (m.transport_offers + one_if (is_offer front.offer)) % 2 ^ 64;
  accepted_datagrams = (m.accepted_datagrams + one_if (is_accepted front.offer)) % 2 ^ 64;
  backpressure_events = (m.backpressure_events + one_if (is_backpressure front.offer)) % 2 ^ 64;
  policy_deferrals = (m.policy_deferrals + one_if front.is_deferred) % 2 ^ 64;
  failed_messages = (m.failed_messages + one_if (is_failure front.turn)) % 2 ^ 64;
  broadcast_messages = (m.broadcast_messages + one_if (is_announcement front.turn)) % 2 ^ 64;
}

abbrev pub is_broadcast : MessageId → OutboundEvent
is_broadcast message_id = record { message_id = message_id; state = broadcast }

abbrev pub is_failed : MessageId → OutboundEvent
is_failed message_id = record { message_id = message_id; state = failed }

unfoldable pub take_turn :
    TransmissionScheduler
    → PendingMessage
    → List PendingMessage
    → Turn
    → Option OutboundEvent × TransmissionScheduler
unfolding with_pending
take_turn s p rest (keep q) = (none, record { pending = q ∷ rest; metrics = s.metrics })
take_turn s p rest drop_front = (none, with_pending s rest)
take_turn s p rest fail_front = (some (is_failed p.message_id), with_pending s rest)
take_turn s p rest (announce q) =
    (some (is_broadcast p.message_id), record { pending = q ∷ rest; metrics = s.metrics })

unfoldable pub pump_pending :
    Medium
    → ℕ
    → TransmissionScheduler
    → List PendingMessage
    → Option OutboundEvent × TransmissionScheduler
unfolding pump_front take_turn
pump_pending medium now s [] = (none, s)
pump_pending medium now s (p ∷ rest) =
    let front = pump_front medium now p in
    take_turn (record { pending = s.pending; metrics = counted_metrics s.metrics front }) p rest
      front.turn

-- The event and the scheduler after a call. The datagram that the call offers is that of `pump_front`;
-- `record_transmit` is called where it was accepted.
unfoldable pub pump :
    Medium → ℕ → TransmissionScheduler → Option OutboundEvent × TransmissionScheduler
unfolding pump_pending
pump medium now s = pump_pending medium now s s.pending

pub cancel_all : TransmissionScheduler → TransmissionScheduler
unfolding with_pending
cancel_all s = with_pending s []
