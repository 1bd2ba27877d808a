-- ===== src/Adapters/RadioPolicy.antt =====
-- src/adapters/radio/japan_920_radio_policy.h and japan_920_radio_policy.cpp: the airtime budget of
-- the radio. The configuration is a parameter, since no operation changes it, and so is what the
-- floating-point arithmetic of `estimated_airtime_ms` gives for a profile and a size.
pub mod Steps
pub mod Airtime
pub mod Tests
use lora_messenger.Common.{
  ℕ, ◌+◌, ◌-◌, ◌*◌, ◌/◌, ◌%◌, ◌^◌, min, Bool, true, false, not, ◌&&◌, ◌||◌, ltb, leb, ◌==◌, nat_eq,
  if◌then◌else◌,
}
use lora_messenger.Application.TransmissionScheduler.Messages.{
  allowed, deferred, locked, invalid_transmit, RadioTransmitDecision, saturating_add,
}
use lora_messenger.Adapters.Bucket.{
  maximum_datagram_bytes, TokenBucket, invalidated, refilled, decision, record_evaluated,
}
use lora_messenger.Adapters.Budget.{Policy}

pub record Japan920Profile : Type 0 where
  pub frequency_hz : ℕ
  pub bandwidth_hz : ℕ
  pub spreading_factor : ℕ
  pub coding_rate_denominator : ℕ
  pub transmit_power_dbm : ℕ
  pub preamble_symbols : ℕ
  pub sync_word : ℕ

pub record Japan920PolicyConfig : Type 0 where
  pub profile : Japan920Profile
  pub minimum_gap_ms : ℕ
  pub bucket_capacity_ms : ℕ
  pub refill_denominator : ℕ

abbrev pub certified_lower_hz : ℕ
certified_lower_hz = 920500000

abbrev pub cap_upper_hz : ℕ
cap_upper_hz = 923000000

unfoldable pub is_valid_profile : Japan920Profile → Bool
is_valid_profile profile =
    let half_bandwidth = profile.bandwidth_hz / 2 in
    if not (profile.bandwidth_hz == 125000)
      || ltb profile.spreading_factor 7
      || ltb 12 profile.spreading_factor
      || ltb profile.coding_rate_denominator 5
      || ltb 8 profile.coding_rate_denominator
      || ltb 13 profile.transmit_power_dbm
      || ltb profile.preamble_symbols 8
      || not (profile.sync_word == 0x12)
    then false
    else leb (certified_lower_hz + half_bandwidth) profile.frequency_hz
      && leb profile.frequency_hz (cap_upper_hz - half_bandwidth)

module _ (computed_ms : Japan920Profile → ℕ → ℕ) (config : Japan920PolicyConfig) where
  unfoldable pub create_policy : TokenBucket
  create_policy = record {
    tokens = config.bucket_capacity_ms;
    last_refill_tick = 0;
    next_transmit_tick = 0;
    clock_started = false;
    valid =
        is_valid_profile config.profile
        && ltb 0 config.minimum_gap_ms
        && ltb 0 config.bucket_capacity_ms
        && ltb 0 config.refill_denominator;
  }

  unfoldable pub estimated_airtime_ms : ℕ → ℕ
  estimated_airtime_ms datagram_size =
      if not (is_valid_profile config.profile)
        || datagram_size == 0
        || ltb maximum_datagram_bytes datagram_size
      then 0
      else computed_ms config.profile datagram_size

  -- `refill` from the tokens that are added on; the clock runs.
  unfoldable pub refill_added : TokenBucket → ℕ → ℕ → TokenBucket
  refill_added p now_tick added =
      if ltb 0 added
      then refilled p (min config.bucket_capacity_ms (saturating_add p.tokens added)) now_tick
      else p

  unfoldable pub refill : TokenBucket → ℕ → TokenBucket
  refill p now_tick =
      let elapsed = (now_tick + 2 ^ 64 - p.last_refill_tick) % 2 ^ 64 in
      if not p.clock_started
      then refilled p p.tokens now_tick
      else refill_added p now_tick (elapsed / config.refill_denominator)

  -- `evaluate_transmit` from the airtime on.
  unfoldable pub decide : TokenBucket → ℕ → ℕ → RadioTransmitDecision
  decide p now_tick airtime =
      if airtime == 0 || ltb config.bucket_capacity_ms airtime
      then decision invalid_transmit 0
      else if ltb now_tick p.next_transmit_tick
      then decision deferred p.next_transmit_tick
      else if ltb p.tokens airtime
      then decision deferred
          (saturating_add now_tick ((airtime - p.tokens) * config.refill_denominator % 2 ^ 64))
      else decision allowed now_tick

  unfoldable pub evaluate_transmit : TokenBucket → ℕ → ℕ → RadioTransmitDecision × TokenBucket
  evaluate_transmit p now_tick datagram_size =
      let ready = refill p now_tick in
      if not p.valid || datagram_size == 0 || ltb maximum_datagram_bytes datagram_size
      then (decision invalid_transmit 0, p)
      else if p.clock_started && ltb now_tick p.last_refill_tick
      then (decision locked 0, invalidated p)
      else (decide ready now_tick (estimated_airtime_ms datagram_size), ready)

  unfoldable pub record_transmit : TokenBucket → ℕ → ℕ → TokenBucket
  record_transmit p at_tick datagram_size =
      record_evaluated config.minimum_gap_ms (evaluate_transmit p at_tick datagram_size) p at_tick
        (estimated_airtime_ms datagram_size)

  -- The methods as an `IRadioPolicy`; a datagram costs its airtime.
  abbrev pub radio_policy : Policy
  radio_policy = record {
    evaluate_transmit = evaluate_transmit;
    record_transmit = record_transmit;
    cost = estimated_airtime_ms;
  }
