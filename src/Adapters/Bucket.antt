-- ===== src/Adapters/Bucket.antt =====
-- The members and the code that LanBroadcastPolicy of src/adapters/network and Japan920RadioPolicy of
-- src/adapters/radio have in common. Tokens are bytes in the one and milliseconds in the other.
pub mod Steps
use lora_messenger.Common.{ℕ, ◌-◌, Bool, true, false, not, if◌then◌else◌}
use lora_messenger.Application.TransmissionScheduler.Messages.{
  RadioTransmitStatus, allowed, RadioTransmitDecision, saturating_add,
}

abbrev pub maximum_datagram_bytes : ℕ
maximum_datagram_bytes = 255

pub record TokenBucket : Type 0 where
  pub tokens : ℕ
  pub last_refill_tick : ℕ
  pub next_transmit_tick : ℕ
  pub clock_started : Bool
  pub valid : Bool

abbrev pub invalidated : TokenBucket → TokenBucket
invalidated p = record {
  tokens = p.tokens;
  last_refill_tick = p.last_refill_tick;
  next_transmit_tick = p.next_transmit_tick;
  clock_started = p.clock_started;
  valid = false;
}

-- The tokens and the tick at the end of `refill`.
abbrev pub refilled : TokenBucket → ℕ → ℕ → TokenBucket
refilled p tokens now_tick = record {
  tokens = tokens;
  last_refill_tick = now_tick;
  next_transmit_tick = p.next_transmit_tick;
  clock_started = true;
  valid = p.valid;
}

abbrev pub decision : RadioTransmitStatus → ℕ → RadioTransmitDecision
decision status tick = record { status = status; not_before_tick = tick }

-- `record_transmit` from the status of the decision on.
unfoldable pub recorded : ℕ → RadioTransmitStatus → TokenBucket → ℕ → ℕ → TokenBucket
recorded gap allowed p at_tick cost = record {
  tokens = p.tokens - cost;
  last_refill_tick = p.last_refill_tick;
  next_transmit_tick = saturating_add at_tick gap;
  clock_started = p.clock_started;
  valid = p.valid;
}
recorded gap _ p at_tick cost = invalidated p

-- `record_transmit`, from what `evaluate_transmit` gives in it.
unfoldable pub record_evaluated :
    ℕ → RadioTransmitDecision × TokenBucket → TokenBucket → ℕ → ℕ → TokenBucket
record_evaluated gap evaluation p at_tick cost =
    if not p.valid then p else recorded gap evaluation.0.status evaluation.1 at_tick cost
