-- ===== src/Adapters/Paced.antt =====
-- TransmissionScheduler::pump of src/application/transmission_scheduler.cpp with the policy of
-- src/adapters/network/lan_broadcast_policy.cpp in its place: what the transport accepts.
pub mod Counted
pub mod Limit
pub mod Tests
use native.Mathlib.Nat.{mul-le-mul_left}
use lora_messenger.Common.{
  subst, sym, ℕ, ◌+◌, ◌-◌, ◌*◌, ◌%◌, ◌^◌, ◌≤◌, ◌<◌, ◌≡◌, refl, ap, Bool, true, false, not, ◌&&◌,
  ◌||◌, Option, none, some, List, [], ◌∷◌, length, get_or, All, ltb, leb, ◌==◌, nat_eq,
  if◌then◌else◌, arith, Bool-cases, inl, inr, ◌∙◌,
}
use lora_messenger.Protocol.Limits.{Bytes}
use lora_messenger.Application.TransmissionScheduler.Messages.{
  PendingMessage, TransmissionScheduler, Medium, DatagramSendStatus, accepted, would_block,
  disconnected, closed_status, invalid_datagram, RadioTransmitStatus, RadioTransmitDecision,
  allowed, deferred, locked, invalid_transmit,
}
use lora_messenger.Application.TransmissionScheduler.Turns.{
  Front, current_frame, by_policy, offer_frame, pump_front,
}
use lora_messenger.Application.TransmissionScheduler.{pump}
use lora_messenger.Adapters.Bucket.{TokenBucket, maximum_datagram_bytes, recorded, record_evaluated}
use lora_messenger.Adapters.Bucket.Steps.{IsBucket}
use lora_messenger.Adapters.Budget.{Call, evaluate, record_sent, run, total, Before, run-Steps}
use lora_messenger.Adapters.LanPolicy.Steps.{lan_policy-IsBudget}
use lora_messenger.Adapters.LanPolicy.{
  LanBroadcastPolicyConfig, LanBroadcastPolicy, refill, refill_elapsed, decide, evaluate_transmit,
  record_transmit, lan_policy,
}
use lora_messenger.Adapters.LanPolicy.Limits.{Refills, refill-Refills}

-- The transport in one call of `pump`.
pub record Link : Type 0 where
  pub maximum_datagram_size : ℕ
  pub closed : Bool
  pub try_send : Bytes → DatagramSendStatus

module _ (config : LanBroadcastPolicyConfig) where
  unfoldable pub medium_of : LanBroadcastPolicy → Link → Medium
  medium_of policy link = record {
    maximum_datagram_size = link.maximum_datagram_size;
    closed = link.closed;
    evaluate_transmit = λ now size. (evaluate_transmit config policy now size).0;
    try_send = link.try_send;
  }

-- The guards of `pump` in front of its call of `evaluate_transmit`.
unfoldable pub asks : Medium → ℕ → PendingMessage → Bool
asks medium now m =
    not (leb m.deadline now)
    && not (ltb now m.due)
    && not (not (medium.maximum_datagram_size == m.mtu) || medium.closed)
    && not (m.repeat_pass && leb 2 (get_or m.offer_counts m.fragment_index 0))

-- `record_transmit` is called for a datagram that was accepted.
abbrev pub sent_calls : ℕ → Option (Bytes × DatagramSendStatus) → List Call
sent_calls now none = []
sent_calls now (some (frame, accepted)) = record_sent now (length frame) ∷ []
sent_calls now (some (frame, _)) = []

abbrev pub accepted_bytes : Option (Bytes × DatagramSendStatus) → ℕ
accepted_bytes none = 0
accepted_bytes (some (frame, accepted)) = length frame
accepted_bytes (some (frame, _)) = 0

-- The calls of the policy that `pump` makes for the front message.
unfoldable pub front_calls : Medium → ℕ → PendingMessage → List Call
front_calls medium now m =
    if asks medium now m
    then evaluate now (length (current_frame m)) ∷ sent_calls now (pump_front medium now m).offer
    else []

abbrev pub queue_calls : Medium → ℕ → List PendingMessage → List Call
queue_calls medium now [] = []
queue_calls medium now (m ∷ rest) = front_calls medium now m

abbrev pub queue_bytes : Medium → ℕ → List PendingMessage → ℕ
queue_bytes medium now [] = 0
queue_bytes medium now (m ∷ rest) = accepted_bytes (pump_front medium now m).offer

module _ (config : LanBroadcastPolicyConfig) where
  -- The bytes of the datagrams that the transport accepts in these calls of `pump`, each with the
  -- transport's answers and its tick; the policy sees the calls that `pump` makes of it.
  unfoldable pub paced_bytes : List (Link × ℕ) → TransmissionScheduler → LanBroadcastPolicy → ℕ
  paced_bytes [] s p = 0
  paced_bytes ((link, now) ∷ calls) s p =
      let medium = medium_of config p link in
      let after = run (lan_policy config) p (queue_calls medium now s.pending) in
      queue_bytes medium now s.pending + paced_bytes calls (pump medium now s).1 after
