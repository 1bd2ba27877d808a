-- ===== src/Adapters/LanPolicy/Steps.antt =====
-- One call of the policy of lan_broadcast_policy.cpp. With that the policy is a budget.
use lora_messenger.Common.{
  ℕ, ◌^◌, ◌≤◌, ◌<◌, ◌≡◌, false, Bool-cases, inl, not, ◌&&◌, ◌||◌, inr, arith, ltb, ◌==◌, nat_eq,
}
use lora_messenger.Application.TransmissionScheduler.Messages.{allowed}
use lora_messenger.Adapters.Bucket.{maximum_datagram_bytes}
use lora_messenger.Adapters.Bucket.Steps.{
  IsBucket, Steps, Ready, stays, invalidated-Steps, record_evaluated-Steps,
}
use lora_messenger.Adapters.Budget.{IsBudget}
use lora_messenger.Adapters.LanPolicy.{
  LanBroadcastPolicyConfig, LanBroadcastPolicy, refill, decide, evaluate_transmit, record_transmit,
  lan_policy,
}
use lora_messenger.Adapters.LanPolicy.Limits.{Refills, refill-Refills, Refills-IsBucket}

module _ (config : LanBroadcastPolicyConfig) (rate : 0 < config.refill_bytes_per_ms) where
  -- One token comes for each byte and tick of the rate.
  abbrev LanSteps : LanBroadcastPolicy → ℕ → ℕ → LanBroadcastPolicy → Type 0
  LanSteps = Steps config.refill_bytes_per_ms 1 config.bucket_capacity_bytes

  decide-Ready :
      (q : LanBroadcastPolicy) (t size : ℕ)
      → q.last_refill_tick ≡ t
      → (decide config q t size).status ≡ allowed
      → Ready 1 q t size
  unfolding decide
  decide-Ready q t size e = ground (arith, e)

  module _ (p : LanBroadcastPolicy) (ok : IsBucket config.bucket_capacity_bytes p) (t size : ℕ)
      (h : t < 2 ^ 64) where
    Refills-Steps :
        (q : LanBroadcastPolicy)
        → (p.clock_started && ltb t p.last_refill_tick) ≡ false
        → Refills config rate ok t q
        → LanSteps p t 0 q
    Refills-Steps q e r =
        let first : p.last_refill_tick ≤ t = elim (Bool-cases p.clock_started) [
          | inl started ↦ ground (arith, started)
          | inr fresh ↦ omega (arith, ok.unstarted fresh)
        ] in
        record {
          ok = Refills-IsBucket config rate ok t h r;
          paid = grind (arith, r.earned, r.last);
          forward = omega (arith, r.last);
          bounded = omega (arith, r.last);
          next = omega (arith, r.next);
        }

    unchanged : LanSteps p t 0 p
    unchanged = stays _ _ _ ok t

    -- `evaluate_transmit`, on all its branches.
    evaluate_transmit-Steps :
        let result = evaluate_transmit config p t size in
        LanSteps p t 0 result.1 × (result.0.status ≡ allowed → Ready 1 result.1 t size)
    unfolding evaluate_transmit
    evaluate_transmit-Steps =
        elim (Bool-cases (not p.valid || size == 0 || ltb maximum_datagram_bytes size)) [
          | inl refused ↦ simp refused (unchanged, λ e. cc)
          | inr passed ↦ elim (Bool-cases (p.clock_started && ltb t p.last_refill_tick)) [
            | inl back ↦ simp (passed, back) (invalidated-Steps _ _ _ ok t unchanged, λ e. cc)
            | inr forward ↦
                simp (passed, forward)
                  (let refills = refill-Refills config rate ok t h forward in
                    (
                      Refills-Steps (refill config p t) forward refills,
                      decide-Ready (refill config p t) t size refills.last,
                    ))
          ]
        ]

  pub lan_policy-IsBudget :
      IsBudget
        (lan_policy config)
        config.refill_bytes_per_ms
        1
        config.bucket_capacity_bytes
        config.minimum_gap_ms
  unfolding record_transmit
  lan_policy-IsBudget = record {
    evaluated = λ p now size ok h. (evaluate_transmit-Steps p ok now size h).0;
    recorded = λ p at size ok h.
        let evaluated = evaluate_transmit-Steps p ok at size h in
        record_evaluated-Steps _ _ _ _ ok at h (evaluate_transmit config p at size) size evaluated.0
          evaluated.1;
  }
