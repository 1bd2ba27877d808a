-- ===== src/Adapters/LanPolicy/Limits.antt =====
-- The policy of lan_broadcast_policy.cpp as a budget: what may be sent in a span of time.
use native.Mathlib.Nat.{div-lt_iff_lt-mul}
use lora_messenger.Common.{
  ap, ◌&&◌, ◌==◌, nat_eq, ℕ, ◌+◌, ◌-◌, ◌*◌, ◌%◌, ◌^◌, ◌≤◌, ◌<◌, ◌≡◌, refl, min, true, false,
  Bool-cases, inl, inr, arith, ltb,
}
use lora_messenger.Adapters.Bucket.Steps.{IsBucket}
use lora_messenger.Adapters.LanPolicy.{
  LanBroadcastPolicyConfig, LanBroadcastPolicy, create_policy, added_bytes, with_added, refill,
  refill_elapsed, size_maximum,
}

module _ (config : LanBroadcastPolicyConfig) (rate : 0 < config.refill_bytes_per_ms) where
  module _ {p : LanBroadcastPolicy} (ok : IsBucket config.bucket_capacity_bytes p) where
    -- Neither the product nor the sum wraps around or saturates below the capacity.
    with_added-added_bytes :
        (elapsed : ℕ)
        → elapsed < 2 ^ 64
        → with_added config p.tokens (added_bytes config elapsed)
          ≡ min config.bucket_capacity_bytes (p.tokens + elapsed * config.refill_bytes_per_ms)
    unfolding added_bytes with_added
    with_added-added_bytes elapsed h = ground (
      arith,
      ok.room,
      ok.full,
      (div-lt_iff_lt-mul {k = config.refill_bytes_per_ms} {x = size_maximum} {y = elapsed} rate).0,
    )

    -- What `refill` leaves, where the clock has not gone back.
    pub record Refills (now : ℕ) (q : LanBroadcastPolicy) : Type 0 where
      pub full : q.tokens ≤ config.bucket_capacity_bytes
      pub earned :
          q.tokens + config.refill_bytes_per_ms * p.last_refill_tick
          ≤ p.tokens + config.refill_bytes_per_ms * now
      pub least :
          p.clock_started ≡ true
          → min config.bucket_capacity_bytes
              (p.tokens + (now - p.last_refill_tick) * config.refill_bytes_per_ms)
            ≤ q.tokens
      pub last : q.last_refill_tick ≡ now
      pub next : q.next_transmit_tick ≡ p.next_transmit_tick
      pub started : q.clock_started ≡ true
      pub same : q.valid ≡ p.valid

    refill_elapsed-Refills :
        (now : ℕ)
        → now < 2 ^ 64
        → p.clock_started ≡ true
        → p.last_refill_tick ≤ now
        → Refills now (refill_elapsed config p now (now - p.last_refill_tick))
    unfolding refill_elapsed
    refill_elapsed-Refills now h started forward =
        let added = with_added-added_bytes (now - p.last_refill_tick) (omega arith) in
        elim (Bool-cases ((now - p.last_refill_tick) == 0)) [
          | inl e ↦ simp e (record {
            full = ok.full;
            earned = grind arith;
            least = λ s.
                let still : now - p.last_refill_tick ≡ 0 = ground (arith, e) in
                omega (arith, ap (λ (x : ℕ). x * config.refill_bytes_per_ms) still);
            last = ground arith;
            next = refl;
            started = started;
            same = refl;
          })
          | inr e ↦ simp e (record {
            full = omega (arith, added);
            earned = grind arith;
            least = λ e. omega (arith, added);
            last = refl;
            next = refl;
            started = refl;
            same = refl;
          })
        ]

    pub refill-Refills :
        (now : ℕ)
        → now < 2 ^ 64
        → (p.clock_started && ltb now p.last_refill_tick) ≡ false
        → Refills now (refill config p now)
    unfolding refill
    refill-Refills now h forward = elim (Bool-cases p.clock_started) [
      | inl e ↦
          let forward : p.last_refill_tick ≤ now = ground (arith, e) in
          let elapsed : (now + 2 ^ 64 - p.last_refill_tick) % 2 ^ 64 ≡ now - p.last_refill_tick =
            omega (arith, ok.word) in
          simp (e, elapsed) (refill_elapsed-Refills now h e forward)
      | inr e ↦ simp e (record {
        full = ok.full;
        earned = grind (arith, ok.unstarted e);
        least = λ started. ground (arith, e, started);
        last = refl;
        next = refl;
        started = refl;
        same = refl;
      })
    ]

  pub Refills-IsBucket :
      {p q : LanBroadcastPolicy} (ok : IsBucket config.bucket_capacity_bytes p) (now : ℕ)
      → now < 2 ^ 64
      → Refills ok now q
      → IsBucket config.bucket_capacity_bytes q
  Refills-IsBucket ok now h r = record {
    room = ok.room;
    full = r.full;
    word = omega (arith, r.last);
    unstarted = λ e. ground (arith, r.started);
  }

  pub create_policy-IsBucket :
      config.bucket_capacity_bytes < 2 ^ 64
      → IsBucket config.bucket_capacity_bytes (create_policy config)
  unfolding create_policy
  create_policy-IsBucket room = record {
    room = room;
    full = omega arith;
    word = omega arith;
    unstarted = λ e. refl;
  }
