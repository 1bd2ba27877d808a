-- ===== src/Application/TransmissionScheduler/Messages.antt =====
-- src/application/transmission_scheduler.h and transmission_scheduler.cpp: the messages of the queue,
-- and `enqueue`.
use lora_messenger.Common.{
  ℕ, ◌+◌, ◌-◌, ◌*◌, ◌/◌, ◌^◌, max, Bool, false, ◌||◌, Option, none, some, List, [], ◌∷◌, ◌++◌,
  length, get_or, replicate, ltb, leb, ◌==◌, nat_eq, if◌then◌else◌,
}
use lora_messenger.Core.Result.{success, failure}
use lora_messenger.Core.Uuid.{MessageId, message_id_eq}
use lora_messenger.Model.Post.{PostPayload}
use lora_messenger.Protocol.Limits.{Bytes, minimum_transport_mtu, maximum_transport_mtu}
use lora_messenger.Protocol.Fragmenter.{fragment_post}

abbrev pub maximum_outbound_messages : ℕ
maximum_outbound_messages = 16

abbrev pub outbound_deadline_ticks : ℕ
outbound_deadline_ticks = 60000

-- `None` of the source's enumeration is `none` of an `Option`.
pub data SchedulerError : Type 0 where
  invalid_mtu invalid_post duplicate_message queue_full random_unavailable : SchedulerError

pub data OutboundTerminalState : Type 0 where
  broadcast failed : OutboundTerminalState

pub record OutboundEvent : Type 0 where
  pub message_id : MessageId
  pub state : OutboundTerminalState

pub record SchedulerMetrics : Type 0 where
  pub pending_messages : ℕ
  pub high_water_messages : ℕ
  pub transport_offers : ℕ
  pub accepted_datagrams : ℕ
  pub backpressure_events : ℕ
  pub policy_deferrals : ℕ
  pub failed_messages : ℕ
  pub broadcast_messages : ℕ

pub record PendingMessage : Type 0 where
  pub message_id : MessageId
  pub mtu : ℕ
  pub frames : List Bytes
  pub jitter : List ℕ
  pub offer_counts : List ℕ
  pub fragment_index : ℕ
  pub jitter_index : ℕ
  pub due : ℕ
  pub deadline : ℕ
  pub repeat_pass : Bool

pub record TransmissionScheduler : Type 0 where
  pub pending : List PendingMessage
  pub metrics : SchedulerMetrics

-- src/ports/datagram_transport.h and src/ports/radio_policy.h
pub data DatagramSendStatus : Type 0 where
  accepted would_block disconnected closed_status invalid_datagram : DatagramSendStatus

pub data RadioTransmitStatus : Type 0 where
  allowed deferred locked invalid_transmit : RadioTransmitStatus

pub record RadioTransmitDecision : Type 0 where
  pub status : RadioTransmitStatus
  pub not_before_tick : ℕ

pub record Medium : Type 0 where
  pub maximum_datagram_size : ℕ
  pub closed : Bool
  pub evaluate_transmit : ℕ → ℕ → RadioTransmitDecision
  pub try_send : Bytes → DatagramSendStatus

abbrev pub tick_maximum : ℕ
tick_maximum = 2 ^ 64 - 1

unfoldable pub saturating_add : ℕ → ℕ → ℕ
saturating_add value increment =
    if ltb (tick_maximum - increment) value then tick_maximum else value + increment

unfoldable pub scaled_jitter : ℕ → ℕ → ℕ
scaled_jitter value inclusive_maximum = value * (inclusive_maximum + 1) / 256

pub any_pending : List PendingMessage → MessageId → Bool
any_pending [] message_id = false
any_pending (pending ∷ rest) message_id =
    pending.message_id == message_id || any_pending rest message_id

-- The queue afterwards, and `update_pending_metric`.
unfoldable pub with_pending : TransmissionScheduler → List PendingMessage → TransmissionScheduler
with_pending s pending = record {
  pending = pending;
  metrics = record {
    pending_messages = length pending;
    high_water_messages = max s.metrics.high_water_messages (length pending);
    transport_offers = s.metrics.transport_offers;
    accepted_datagrams = s.metrics.accepted_datagrams;
    backpressure_events = s.metrics.backpressure_events;
    policy_deferrals = s.metrics.policy_deferrals;
    failed_messages = s.metrics.failed_messages;
    broadcast_messages = s.metrics.broadcast_messages;
  };
}

-- The message that `enqueue` makes of the fragments and the random bytes.
unfoldable pub new_pending : PostPayload → ℕ → ℕ → List Bytes → List ℕ → PendingMessage
unfolding saturating_add scaled_jitter
new_pending post mtu now frames jitter = record {
  message_id = post.message_id;
  mtu = mtu;
  frames = frames;
  jitter = jitter;
  offer_counts = replicate (length frames) 0;
  fragment_index = 0;
  jitter_index = 1;
  due = saturating_add now (scaled_jitter (get_or jitter 0 0) 250);
  deadline = saturating_add now outbound_deadline_ticks;
  repeat_pass = false;
}

-- `fill` gives that many random bytes, or `none` where it returned false.
unfoldable pub enqueue :
    (ℕ → Option (List ℕ))
    → TransmissionScheduler
    → PostPayload
    → ℕ
    → ℕ
    → Option SchedulerError × TransmissionScheduler
unfolding any_pending new_pending with_pending
enqueue fill s post mtu now =
    if ltb mtu minimum_transport_mtu || ltb maximum_transport_mtu mtu
    then (some invalid_mtu, s)
    else (if leb maximum_outbound_messages (length s.pending)
        then (some queue_full, s)
        else (if any_pending s.pending post.message_id
            then (some duplicate_message, s)
            else (elim (fragment_post post mtu) [
              | failure error ↦ (some invalid_post, s)
              | success frames ↦ elim (fill (2 * length frames + 2)) [
                | none ↦ (some random_unavailable, s)
                | some jitter ↦ (
                  none,
                  with_pending s (s.pending ++ (new_pending post mtu now frames jitter ∷ [])),
                )
              ]
            ])))
