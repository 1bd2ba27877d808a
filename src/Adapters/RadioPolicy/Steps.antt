-- ===== src/Adapters/RadioPolicy/Steps.antt =====
-- One call of the policy of japan_920_radio_policy.cpp. With that the policy is a budget.
use native.Mathlib.Nat.{div-mul-le_self, lt-div-mul-add, mul-le-mul_left}
use lora_messenger.Common.{
  ap, ℕ, ◌+◌, ◌-◌, ◌*◌, ◌/◌, ◌%◌, ◌^◌, ◌≤◌, ◌<◌, ◌≡◌, refl, true, false, Bool-cases, inl, not, ◌&&◌,
  ◌||◌, inr, arith, ltb, ◌==◌, nat_eq, min,
}
use lora_messenger.Application.TransmissionScheduler.Messages.{allowed, saturating_add}
use lora_messenger.Adapters.Bucket.{maximum_datagram_bytes, TokenBucket}
use lora_messenger.Adapters.Bucket.Steps.{
  IsBucket, Steps, Ready, saturating_add-le-add, stays, invalidated-Steps, record_evaluated-Steps,
}
use lora_messenger.Adapters.Budget.{IsBudget}
use lora_messenger.Adapters.RadioPolicy.{
  Japan920Profile, Japan920PolicyConfig, create_policy, estimated_airtime_ms, refill_added, refill,
  decide, evaluate_transmit, record_transmit, radio_policy,
}

module _ (computed_ms : Japan920Profile → ℕ → ℕ) (config : Japan920PolicyConfig)
    (rate : 0 < config.refill_denominator) where
  -- One millisecond of airtime comes in as many ticks as the denominator says.
  abbrev RadioSteps : TokenBucket → ℕ → ℕ → TokenBucket → Type 0
  RadioSteps = Steps 1 config.refill_denominator config.bucket_capacity_ms

  decide-Ready :
      (q : TokenBucket) (t airtime : ℕ)
      → q.last_refill_tick ≤ t
      → t < q.last_refill_tick + config.refill_denominator
      → (decide computed_ms config q t airtime).status ≡ allowed
      → Ready config.refill_denominator q t airtime
  unfolding decide
  decide-Ready q t airtime h k = ground (arith, h, k)

  -- Less than one millisecond of airtime is left uncounted.
  Fresh : TokenBucket → ℕ → Type 0
  Fresh q t = (q.last_refill_tick ≤ t) × (t < q.last_refill_tick + config.refill_denominator)

  module _ (p : TokenBucket) (ok : IsBucket config.bucket_capacity_ms p) (t : ℕ)
      (h : t < 2 ^ 64) where
    unchanged : RadioSteps p t 0 p
    unchanged = stays _ _ _ ok t

    refill_added-Steps :
        p.last_refill_tick ≤ t
        → p.clock_started ≡ true
        → let q =
            refill_added computed_ms config p t
              ((t - p.last_refill_tick) / config.refill_denominator) in
          RadioSteps p t 0 q × Fresh q t
    unfolding refill_added Fresh
    refill_added-Steps forward started =
        let added = (t - p.last_refill_tick) / config.refill_denominator in
        let exact = div-mul-le_self (t - p.last_refill_tick) config.refill_denominator in
        let rest =
          lt-div-mul-add {a = t - p.last_refill_tick} {b = config.refill_denominator} rate in
        elim (Bool-cases (ltb 0 added)) [
          | inl some ↦ simp some (
            record {
              ok = record { room = ok.room; full = omega arith; word = h; unstarted = λ e. cc };
              paid =
                  let more : min config.bucket_capacity_ms (saturating_add p.tokens added)
                      ≤ p.tokens + added =
                    omega (arith, saturating_add-le-add p.tokens added) in
                  let times = mul-le-mul_left config.refill_denominator more in grind arith;
              forward = forward;
              bounded = omega arith;
              next = omega arith;
            },
            (omega arith, omega arith),
          )
          | inr nothing ↦ simp nothing (
              let none : added ≡ 0 = ground (arith, nothing) in
              let time : added * config.refill_denominator ≡ 0 * config.refill_denominator =
                ap (λ (x : ℕ). x * config.refill_denominator) none in
              (unchanged, (forward, omega (arith, rest, time))))
        ]

    refill-Steps :
        (p.clock_started && ltb t p.last_refill_tick) ≡ false
        → let q = refill computed_ms config p t in RadioSteps p t 0 q × Fresh q t
    unfolding refill Fresh
    refill-Steps e = elim (Bool-cases p.clock_started) [
      | inl started ↦
          let forward : p.last_refill_tick ≤ t = ground (arith, started) in
          let elapsed : (t + 2 ^ 64 - p.last_refill_tick) % 2 ^ 64 ≡ t - p.last_refill_tick =
            omega (arith, ok.word) in
          simp (started, elapsed) (refill_added-Steps forward started)
      | inr fresh ↦
          let zero_tick = ok.unstarted fresh in
          simp fresh (
            record {
              ok = record { room = ok.room; full = ok.full; word = h; unstarted = λ e. cc };
              paid = omega (arith, zero_tick);
              forward = omega (arith, zero_tick);
              bounded = omega arith;
              next = omega arith;
            },
            (omega arith, omega arith),
          )
    ]

    -- `evaluate_transmit`, on all its branches.
    evaluate_transmit-Steps :
        (size : ℕ)
        → let result = evaluate_transmit computed_ms config p t size in
          RadioSteps p t 0 result.1
          × (result.0.status ≡ allowed
              → Ready config.refill_denominator result.1 t
                  (estimated_airtime_ms computed_ms config size))
    unfolding evaluate_transmit Fresh
    evaluate_transmit-Steps size =
        elim (Bool-cases (not p.valid || size == 0 || ltb maximum_datagram_bytes size)) [
          | inl refused ↦ simp refused (unchanged, λ e. cc)
          | inr passed ↦ elim (Bool-cases (p.clock_started && ltb t p.last_refill_tick)) [
            | inl back ↦ simp (passed, back) (invalidated-Steps _ _ _ ok t unchanged, λ e. cc)
            | inr forward ↦
                let (step, fresh) = refill-Steps forward in
                simp (passed, forward)
                  (
                    step,
                    decide-Ready (refill computed_ms config p t) t
                        (estimated_airtime_ms computed_ms config size) fresh.0 fresh.1,
                  )
          ]
        ]

  pub radio_policy-IsBudget :
      IsBudget
        (radio_policy computed_ms config)
        1
        config.refill_denominator
        config.bucket_capacity_ms
        config.minimum_gap_ms
  unfolding record_transmit
  radio_policy-IsBudget = record {
    evaluated = λ p now size ok h. (evaluate_transmit-Steps p ok now h size).0;
    recorded = λ p at size ok h.
        let evaluated = evaluate_transmit-Steps p ok at h size in
        record_evaluated-Steps _ _ _ _ ok at h (evaluate_transmit computed_ms config p at size)
          (estimated_airtime_ms computed_ms config size) evaluated.0 evaluated.1;
  }

  pub create_policy-IsBucket :
      config.bucket_capacity_ms < 2 ^ 64
      → IsBucket config.bucket_capacity_ms (create_policy computed_ms config)
  unfolding create_policy
  create_policy-IsBucket room = record {
    room = room;
    full = omega arith;
    word = omega arith;
    unstarted = λ e. refl;
  }
