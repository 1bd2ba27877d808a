-- ===== src/Adapters/RadioPolicy/Tests.antt =====
-- The default configuration of japan_920_radio_policy.h, and calls on which the policy is run.
use lora_messenger.Common.{ℕ, ◌+◌, ◌-◌, ◌*◌, ◌≤◌, ◌<◌, ◌≡◌, refl, true, List, [], ◌∷◌, arith}
use lora_messenger.Application.TransmissionScheduler.Messages.{saturating_add}
use lora_messenger.Adapters.Bucket.{TokenBucket, recorded, record_evaluated}
use lora_messenger.Adapters.Budget.{Call, record_sent, run, total}
use lora_messenger.Adapters.RadioPolicy.{
  Japan920Profile, Japan920PolicyConfig, is_valid_profile, create_policy, estimated_airtime_ms,
  refill_added, refill, decide, evaluate_transmit, record_transmit, radio_policy,
}
use lora_messenger.Adapters.RadioPolicy.Steps.{create_policy-IsBucket}
use lora_messenger.Adapters.RadioPolicy.Airtime.{record_transmit-airtime}

abbrev config : Japan920PolicyConfig
config = record {
  profile = record {
    frequency_hz = 920800000;
    bandwidth_hz = 125000;
    spreading_factor = 9;
    coding_rate_denominator = 7;
    transmit_power_dbm = 13;
    preamble_symbols = 12;
    sync_word = 0x12;
  };
  minimum_gap_ms = 100;
  bucket_capacity_ms = 6000;
  refill_denominator = 10;
}

-- The estimate for the longest datagram with this profile, for every size.
abbrev longest : Japan920Profile → ℕ → ℕ
longest profile size = 1734

abbrev calls : List Call
calls =
    record_sent 100 255
    ∷ record_sent 200 255
    ∷ record_sent 9360 255
    ∷ record_sent 26700 255
    ∷ record_sent 44040 255
    ∷ []

abbrev sent : TokenBucket
sent = record_transmit longest config (create_policy longest config) 0 255

-- A full bucket and what comes back let six of them pass within 45 seconds, 10404 milliseconds.
all_sent : total (radio_policy longest config) sent calls ≡ 5 * 1734
unfolding run total create_policy record_transmit record_evaluated recorded evaluate_transmit decide
    refill refill_added estimated_airtime_ms is_valid_profile saturating_add
all_sent = refl

record_transmit-airtime_example :
    (10 * (estimated_airtime_ms longest config 255 + total (radio_policy longest config) sent calls)
      < 10 * (6000 + 1) + (60000 - 0))
    × ((next next_size : ℕ)
        → next ≤ 60000
        → (record_transmit longest config
            (run (radio_policy longest config) sent calls)
            next
            next_size).valid
          ≡ true
        → saturating_add 0 100 ≤ next)
unfolding create_policy record_transmit record_evaluated recorded evaluate_transmit decide refill
    refill_added estimated_airtime_ms is_valid_profile saturating_add
record_transmit-airtime_example =
    record_transmit-airtime longest config (create_policy longest config) (omega arith)
      (create_policy-IsBucket longest config (omega arith) (omega arith)) 0 255 60000 (omega arith)
      (omega arith) refl calls (omega arith)
