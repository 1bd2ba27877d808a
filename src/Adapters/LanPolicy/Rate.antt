-- ===== src/Adapters/LanPolicy/Rate.antt =====
-- What the policy of lan_broadcast_policy.cpp lets through in a span of time.
use lora_messenger.Common.{ap, ℕ, ◌+◌, ◌-◌, ◌*◌, ◌^◌, ◌≤◌, ◌<◌, ◌≡◌, true, List, All, arith}
use lora_messenger.Application.TransmissionScheduler.Messages.{saturating_add}
use lora_messenger.Adapters.Bucket.Steps.{IsBucket}
use lora_messenger.Adapters.Budget.{Call, run, total, Before, record_transmit-Limits}
use lora_messenger.Adapters.LanPolicy.{
  LanBroadcastPolicyConfig, LanBroadcastPolicy, record_transmit, lan_policy,
}
use lora_messenger.Adapters.LanPolicy.Steps.{lan_policy-IsBudget}

-- Let the rate be positive and the policy well-formed. After a transmission that it recorded at tick
-- `at` and that left it valid, whatever is asked or recorded up to tick `t`: this
-- datagram and those recorded later have at most the bytes of the bucket and those refilled since
-- `at`, and the next one that is recorded comes no earlier than the minimum gap after `at`.
pub record_transmit-IsLimited :
    (config : LanBroadcastPolicyConfig) (p : LanBroadcastPolicy)
    → 0 < config.refill_bytes_per_ms
    → IsBucket config.bucket_capacity_bytes p
    → (at size t : ℕ) → at ≤ t
    → t < 2 ^ 64
    → (record_transmit config p at size).valid ≡ true
    → (calls : List Call) → All (Before t) calls
    → let sent = record_transmit config p at size in
      (size + total (lan_policy config) sent calls
        ≤ config.bucket_capacity_bytes + config.refill_bytes_per_ms * (t - at))
      × ((next next_size : ℕ)
          → next ≤ t
          → (record_transmit config (run (lan_policy config) sent calls) next next_size).valid
            ≡ true
          → saturating_add at config.minimum_gap_ms ≤ next)
record_transmit-IsLimited config p rate ok at size t ha ht e calls hc =
    let (sent, limit, gap) =
      record_transmit-Limits (lan_policy-IsBudget config rate) p ok at size t ha ht e calls hc in
    let last : (record_transmit config p at size).last_refill_tick ≡ at =
      omega (arith, sent.last, sent.recent) in
    (omega (arith, limit, ap (λ (x : ℕ). config.refill_bytes_per_ms * (t - x)) last), gap)
