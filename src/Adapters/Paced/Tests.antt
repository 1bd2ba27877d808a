-- ===== src/Adapters/Paced/Tests.antt =====
-- A queue and a policy on which `pump` is run.
use lora_messenger.Common.{ℕ, ◌+◌, ◌-◌, ◌*◌, ◌≤◌, ◌≡◌, refl, false, List, [], ◌∷◌, arith}
use lora_messenger.Application.TransmissionScheduler.Messages.{
  accepted, saturating_add, scaled_jitter,
}
use lora_messenger.Application.TransmissionScheduler.Turns.{
  pump_front, by_policy, offer_frame, after_offer, after_accepted,
}
use lora_messenger.Application.TransmissionScheduler.{pump, pump_pending, take_turn}
use lora_messenger.Application.TransmissionScheduler.Tests.{queue}
use lora_messenger.Adapters.Bucket.{recorded, record_evaluated}
use lora_messenger.Adapters.Budget.{run}
use lora_messenger.Adapters.LanPolicy.{
  LanBroadcastPolicyConfig, create_policy, added_bytes, with_added, refill_elapsed, refill,
  token_wait, decide, evaluate_transmit, record_transmit,
}
use lora_messenger.Adapters.LanPolicy.Limits.{create_policy-IsBucket}
use lora_messenger.Adapters.Paced.{Link, medium_of, asks, front_calls, paced_bytes}
use lora_messenger.Adapters.Paced.Limit.{paced_bytes_limit}

abbrev config : LanBroadcastPolicyConfig
config = record { minimum_gap_ms = 10; bucket_capacity_bytes = 300; refill_bytes_per_ms = 2 }

abbrev link : Link
link = record { maximum_datagram_size = 48; closed = false; try_send = λ frame. accepted }

-- The second call is deferred by the gap.
abbrev calls : List (Link × ℕ)
calls = (link, 20) ∷ (link, 21) ∷ (link, 30) ∷ []

both_accepted : paced_bytes config calls queue (create_policy config) ≡ 2
unfolding paced_bytes medium_of asks front_calls run create_policy record_transmit record_evaluated
    recorded evaluate_transmit decide refill refill_elapsed added_bytes with_added token_wait
    saturating_add scaled_jitter pump pump_pending take_turn pump_front by_policy offer_frame
    after_offer after_accepted
both_accepted = refl

paced_bytes_limit_example :
    paced_bytes config calls queue (create_policy config) ≤ 300 + 2 * (2000 - 0)
unfolding create_policy
paced_bytes_limit_example =
    paced_bytes_limit config queue (create_policy config) 2000 calls (omega arith)
      (create_policy-IsBucket config (omega arith) (omega arith)) (omega arith) (omega arith)
      (omega arith)
