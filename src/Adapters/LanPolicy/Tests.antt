-- ===== src/Adapters/LanPolicy/Tests.antt =====
-- A configuration and calls on which lan_broadcast_policy.cpp is run.
use lora_messenger.Common.{ℕ, ◌+◌, ◌-◌, ◌*◌, ◌≤◌, ◌≡◌, refl, max, true, List, [], ◌∷◌, arith}
use lora_messenger.Application.TransmissionScheduler.Messages.{allowed, saturating_add}
use lora_messenger.Adapters.Bucket.{recorded, record_evaluated}
use lora_messenger.Adapters.Budget.{Call, evaluate, record_sent, run, total}
use lora_messenger.Adapters.LanPolicy.{
  LanBroadcastPolicyConfig, LanBroadcastPolicy, create_policy, added_bytes, with_added,
  refill_elapsed, refill, token_wait, decide, evaluate_transmit, record_transmit, lan_policy,
}
use lora_messenger.Adapters.LanPolicy.Limits.{create_policy-IsBucket}
use lora_messenger.Adapters.LanPolicy.Rate.{record_transmit-IsLimited}
use lora_messenger.Adapters.LanPolicy.Waits.{evaluate_transmit_third}

-- The values that the header gives, with a small bucket.
abbrev config : LanBroadcastPolicyConfig
config = record { minimum_gap_ms = 10; bucket_capacity_bytes = 300; refill_bytes_per_ms = 2 }

abbrev calls : List Call
calls = evaluate 1001 100 ∷ record_sent 1060 200 ∷ record_sent 1180 255 ∷ []

abbrev sent : LanBroadcastPolicy
sent = record_transmit config (create_policy config) 1000 200

record_transmit-IsLimited_example :
    (200 + total (lan_policy config) sent calls ≤ 300 + 2 * (1200 - 1000))
    × ((next next_size : ℕ)
        → next ≤ 1200
        → (record_transmit config (run (lan_policy config) sent calls) next next_size).valid ≡ true
        → saturating_add 1000 10 ≤ next)
unfolding create_policy record_transmit record_evaluated recorded evaluate_transmit decide refill
    refill_elapsed added_bytes with_added saturating_add
record_transmit-IsLimited_example =
    record_transmit-IsLimited config (create_policy config) (omega arith)
      (create_policy-IsBucket config (omega arith) (omega arith)) 1000 200 1200 (omega arith)
      (omega arith) refl calls (omega arith)

all_sent : total (lan_policy config) sent calls ≡ 455
unfolding run total create_policy record_transmit record_evaluated recorded evaluate_transmit decide
    refill refill_elapsed added_bytes with_added saturating_add
all_sent = refl

-- The gap has passed at 1010, and the bytes are there at 1043.
evaluate_transmit_third_example :
    let first = evaluate_transmit config sent 1005 255 in
    let second = evaluate_transmit config first.1 first.0.not_before_tick 255 in
    let third = evaluate_transmit config second.1 second.0.not_before_tick 255 in
    (third.0.status ≡ allowed) × (second.0.not_before_tick ≤ max 1005 sent.next_transmit_tick + 510)
unfolding create_policy record_transmit record_evaluated recorded evaluate_transmit decide refill
    refill_elapsed added_bytes with_added saturating_add token_wait
evaluate_transmit_third_example =
    evaluate_transmit_third config 255 (omega arith) (omega arith) (omega arith) (omega arith)
      (omega arith) sent 1005
      (record {
        ok = record {
          room = omega arith;
          full = omega arith;
          word = omega arith;
          unstarted = λ e. cc;
        };
        valid = refl;
        forward = refl;
      })
      (omega arith) (omega arith)
