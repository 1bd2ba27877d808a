-- ===== src/Adapters/RadioPolicy/Airtime.antt =====
-- The airtime that the policy of japan_920_radio_policy.cpp lets through in a span of time.
use lora_messenger.Common.{ℕ, ◌+◌, ◌-◌, ◌*◌, ◌^◌, ◌≤◌, ◌<◌, ◌≡◌, true, List, All, arith}
use lora_messenger.Application.TransmissionScheduler.Messages.{saturating_add}
use lora_messenger.Adapters.Bucket.{TokenBucket}
use lora_messenger.Adapters.Bucket.Steps.{IsBucket}
use lora_messenger.Adapters.Budget.{Call, run, total, Before, record_transmit-Limits}
use lora_messenger.Adapters.RadioPolicy.{
  Japan920Profile, Japan920PolicyConfig, estimated_airtime_ms, record_transmit, radio_policy,
}
use lora_messenger.Adapters.RadioPolicy.Steps.{radio_policy-IsBudget}

-- Let the denominator be positive and the policy well-formed. After a transmission that it recorded at
-- tick `at` and that left it valid, whatever is asked or recorded up to tick `t`: the
-- estimated airtimes of this datagram and of those recorded later are together less than the bucket
-- and one millisecond for each `refill_denominator` ticks since `at`, and one more; and the next
-- datagram that is recorded comes no earlier than the minimum gap after `at`.
pub record_transmit-airtime :
    (computed_ms : Japan920Profile → ℕ → ℕ) (config : Japan920PolicyConfig) (p : TokenBucket)
    → 0 < config.refill_denominator
    → IsBucket config.bucket_capacity_ms p
    → (at size t : ℕ) → at ≤ t
    → t < 2 ^ 64
    → (record_transmit computed_ms config p at size).valid ≡ true
    → (calls : List Call) → All (Before t) calls
    → let sent = record_transmit computed_ms config p at size in
      let airtime = estimated_airtime_ms computed_ms config size in
      let policy = radio_policy computed_ms config in
      (config.refill_denominator * (airtime + total policy sent calls)
        < config.refill_denominator * (config.bucket_capacity_ms + 1) + (t - at))
      × ((next next_size : ℕ)
          → next ≤ t
          → (record_transmit computed_ms config (run policy sent calls) next next_size).valid ≡ true
          → saturating_add at config.minimum_gap_ms ≤ next)
record_transmit-airtime computed_ms config p rate ok at size t ha ht e calls hc =
    let (sent, limit, gap) =
      record_transmit-Limits (radio_policy-IsBudget computed_ms config rate) p ok at size t ha ht e
        calls hc in
    let recent = sent.recent in let last = sent.last in (grind arith, gap)
