-- ===== src/Adapters/LanPolicy.antt =====
-- src/adapters/network/lan_broadcast_policy.h and lan_broadcast_policy.cpp: the congestion guard of
-- the local network. `std::size_t` has 64 bits. The configuration is a parameter, since no operation
-- changes it.
pub mod Limits
pub mod Steps
pub mod Rate
pub mod Waits
pub mod Tests
use lora_messenger.Common.{
  ℕ, ◌+◌, ◌-◌, ◌*◌, ◌/◌, ◌%◌, ◌^◌, min, Bool, true, false, not, ◌&&◌, ◌||◌, ltb, leb, ◌==◌, nat_eq,
  if◌then◌else◌,
}
use lora_messenger.Application.TransmissionScheduler.Messages.{
  RadioTransmitStatus, allowed, deferred, locked, invalid_transmit, RadioTransmitDecision,
  saturating_add,
}
use lora_messenger.Adapters.Bucket.{
  maximum_datagram_bytes, TokenBucket, invalidated, refilled, decision, record_evaluated,
}
use lora_messenger.Adapters.Budget.{Policy}

abbrev pub size_maximum : ℕ
size_maximum = 2 ^ 64 - 1

pub record LanBroadcastPolicyConfig : Type 0 where
  pub minimum_gap_ms : ℕ
  pub bucket_capacity_bytes : ℕ
  pub refill_bytes_per_ms : ℕ

abbrev pub LanBroadcastPolicy : Type 0
LanBroadcastPolicy = TokenBucket

module _ (config : LanBroadcastPolicyConfig) where
  unfoldable pub create_policy : LanBroadcastPolicy
  create_policy = record {
    tokens = config.bucket_capacity_bytes;
    last_refill_tick = 0;
    next_transmit_tick = 0;
    clock_started = false;
    valid =
        ltb 0 config.minimum_gap_ms
        && leb maximum_datagram_bytes config.bucket_capacity_bytes
        && ltb 0 config.refill_bytes_per_ms;
  }

  unfoldable pub added_bytes : ℕ → ℕ
  added_bytes elapsed =
      let elapsed_size = if ltb size_maximum elapsed then size_maximum else elapsed in
      if ltb (size_maximum / config.refill_bytes_per_ms) elapsed_size
      then size_maximum
      else elapsed_size * config.refill_bytes_per_ms

  unfoldable pub with_added : ℕ → ℕ → ℕ
  with_added tokens added =
      min config.bucket_capacity_bytes
        (if ltb (size_maximum - tokens) added then size_maximum else tokens + added)

  -- `refill` from the elapsed ticks on.
  unfoldable pub refill_elapsed : LanBroadcastPolicy → ℕ → ℕ → LanBroadcastPolicy
  refill_elapsed p now_tick elapsed =
      if elapsed == 0 then p else refilled p (with_added p.tokens (added_bytes elapsed)) now_tick

  unfoldable pub refill : LanBroadcastPolicy → ℕ → LanBroadcastPolicy
  refill p now_tick =
      let elapsed = (now_tick + 2 ^ 64 - p.last_refill_tick) % 2 ^ 64 in
      if not p.clock_started
      then refilled p p.tokens now_tick
      else refill_elapsed p now_tick elapsed

  unfoldable pub token_wait : ℕ → ℕ
  token_wait deficit =
      (deficit + config.refill_bytes_per_ms + 2 ^ 64 - 1) % 2 ^ 64 / config.refill_bytes_per_ms

  -- `evaluate_transmit` from the call of `refill` on.
  unfoldable pub decide : LanBroadcastPolicy → ℕ → ℕ → RadioTransmitDecision
  decide p now_tick datagram_size =
      if ltb now_tick p.next_transmit_tick
      then decision deferred p.next_transmit_tick
      else if ltb p.tokens datagram_size
      then decision deferred (saturating_add now_tick (token_wait (datagram_size - p.tokens)))
      else decision allowed now_tick

  unfoldable pub evaluate_transmit :
      LanBroadcastPolicy → ℕ → ℕ → RadioTransmitDecision × LanBroadcastPolicy
  evaluate_transmit p now_tick datagram_size =
      let ready = refill p now_tick in
      if not p.valid || datagram_size == 0 || ltb maximum_datagram_bytes datagram_size
      then (decision invalid_transmit 0, p)
      else if p.clock_started && ltb now_tick p.last_refill_tick
      then (decision locked 0, invalidated p)
      else (decide ready now_tick datagram_size, ready)

  unfoldable pub record_transmit : LanBroadcastPolicy → ℕ → ℕ → LanBroadcastPolicy
  record_transmit p at_tick datagram_size =
      record_evaluated config.minimum_gap_ms (evaluate_transmit p at_tick datagram_size) p at_tick
        datagram_size

  -- The methods as an `IRadioPolicy`; a datagram costs its bytes.
  abbrev pub lan_policy : Policy
  lan_policy = record {
    evaluate_transmit = evaluate_transmit;
    record_transmit = record_transmit;
    cost = λ size. size;
  }
