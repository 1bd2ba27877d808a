-- ===== src/Adapters/LanPolicy/Waits.antt =====
-- The ticks that the policy of lan_broadcast_policy.cpp answers: whoever waits for them may send.
use native.Mathlib.Nat.{div-le_of_le-mul, lt-div-mul-add, mul-le-mul_right}
use lora_messenger.Common.{
  ℕ, ◌+◌, ◌-◌, ◌*◌, ◌%◌, ◌^◌, ◌≤◌, ◌<◌, ◌≡◌, max, true, false, ◌&&◌, arith, ltb, ap, ◌∙◌,
}
use lora_messenger.Application.TransmissionScheduler.Messages.{allowed, saturating_add}
use lora_messenger.Adapters.LanPolicy.{
  LanBroadcastPolicyConfig, LanBroadcastPolicy, refill, token_wait, decide, evaluate_transmit,
}
use lora_messenger.Adapters.Bucket.Steps.{IsBucket}
use lora_messenger.Adapters.LanPolicy.Limits.{refill-Refills, Refills-IsBucket}

module _ (config : LanBroadcastPolicyConfig) (size : ℕ) (small : 0 < size) (fits : size ≤ 255)
    (room : 255 ≤ config.bucket_capacity_bytes) (rate : 0 < config.refill_bytes_per_ms)
    (word : config.refill_bytes_per_ms + 255 < 2 ^ 64) where
  pub record IsReady (p : LanBroadcastPolicy) (now : ℕ) : Type 0 where
    pub ok : IsBucket config.bucket_capacity_bytes p
    pub valid : p.valid ≡ true
    pub forward : (p.clock_started && ltb now p.last_refill_tick) ≡ false

  evaluate_transmit-refill :
      (p : LanBroadcastPolicy) (now : ℕ)
      → IsReady p now
      → evaluate_transmit config p now size
        ≡ (decide config (refill config p now) now size, refill config p now)
  unfolding evaluate_transmit
  evaluate_transmit-refill p now r = ground (arith, r.valid, r.forward)

  -- The wait is long enough for the missing bytes, and at most one tick for each.
  token_wait_enough :
      (deficit : ℕ)
      → 0 < deficit
      → deficit ≤ 255
      → (deficit ≤ token_wait config deficit * config.refill_bytes_per_ms)
        × (token_wait config deficit ≤ deficit)
  unfolding token_wait
  token_wait_enough deficit some h =
      let exact : (deficit + config.refill_bytes_per_ms + 2 ^ 64 - 1) % 2 ^ 64
          ≡ deficit + config.refill_bytes_per_ms - 1 =
        omega arith in
      let more : 1 * (deficit - 1) ≤ config.refill_bytes_per_ms * (deficit - 1) =
        mul-le-mul_right (deficit - 1) rate in
      let back : deficit - 1 + 1 ≡ deficit = omega arith in
      let same : config.refill_bytes_per_ms * (deficit - 1 + 1)
          ≡ config.refill_bytes_per_ms * deficit =
        ap (λ (x : ℕ). config.refill_bytes_per_ms * x) back in
      simp exact (
        omega (
          arith,
          lt-div-mul-add {a = deficit + config.refill_bytes_per_ms - 1}
              {b = config.refill_bytes_per_ms} rate,
        ),
        div-le_of_le-mul config.refill_bytes_per_ms (grind arith),
      )

  decide_tick :
      (q : LanBroadcastPolicy) (now : ℕ)
      → now + 255 < 2 ^ 64
      → let t = (decide config q now size).not_before_tick in
        (now ≤ t)
        × (q.next_transmit_tick ≤ t)
        × (t ≤ max now q.next_transmit_tick + 255)
        × (q.next_transmit_tick ≤ now → size ≤ q.tokens + (t - now) * config.refill_bytes_per_ms)
  unfolding decide saturating_add
  decide_tick q now h =
      let wait = token_wait config (size - q.tokens) in
      let after : now + wait - now ≡ wait = omega arith in
      ground (
        arith,
        token_wait_enough (size - q.tokens),
        ap (λ (x : ℕ). x * config.refill_bytes_per_ms) after,
      )

  decide_allowed :
      (q : LanBroadcastPolicy) (t : ℕ)
      → q.next_transmit_tick ≤ t
      → size ≤ q.tokens
      → (decide config q t size).status ≡ allowed
  unfolding decide
  decide_allowed q t free enough = ground arith

  -- At that tick the answer is yes, whatever the tick of the question was.
  decide_later :
      (q : LanBroadcastPolicy) (now t : ℕ)
      → IsReady q t
      → q.clock_started ≡ true
      → q.last_refill_tick ≡ now
      → t < 2 ^ 64
      → q.next_transmit_tick ≤ t
      → size ≤ q.tokens + (t - now) * config.refill_bytes_per_ms
      → (evaluate_transmit config q t size).0.status ≡ allowed
  decide_later q now t ready started last h free enough = rw (evaluate_transmit-refill q t ready) (
      let refills = refill-Refills config rate ready.ok t h ready.forward in
      decide_allowed (refill config q t) t (omega (arith, refills.next)) (
        omega (
          arith,
          refills.least started,
          ap (λ (x : ℕ). (t - x) * config.refill_bytes_per_ms) last,
        )))

  refill-IsReady :
      (p : LanBroadcastPolicy) (now t : ℕ)
      → IsReady p now
      → now ≤ t
      → t < 2 ^ 64
      → let q = refill config p now in
        IsReady q t
        × (q.clock_started ≡ true)
        × (q.last_refill_tick ≡ now)
        × (q.next_transmit_tick ≡ p.next_transmit_tick)
  refill-IsReady p now t ready le h =
      let refills = refill-Refills config rate ready.ok now (omega arith) ready.forward in
      (
        record {
          ok = Refills-IsBucket config rate ready.ok now (omega arith) refills;
          valid = refills.same ∙ ready.valid;
          forward = ground (arith, refills.started, refills.last);
        },
        refills.started,
        refills.last,
        refills.next,
      )

  -- Let a datagram have 1 to 255 bytes, the bucket room for 255, and the rate be positive and at least
  -- 256 below 2^64. A well-formed, valid policy whose clock does not go back, where the tick of the first
  -- question and the end of the gap before it are both more than 1024 below 2^64, answers yes at the
  -- third question at the latest, if each is put at the tick that the last answer named; that tick is at
  -- most 510 after the later of the first tick and the end of the gap.
  pub evaluate_transmit_third :
      (p : LanBroadcastPolicy) (now : ℕ)
      → IsReady p now
      → now + 1024 < 2 ^ 64
      → p.next_transmit_tick + 1024 < 2 ^ 64
      → let first = evaluate_transmit config p now size in
        let second = evaluate_transmit config first.1 first.0.not_before_tick size in
        let third = evaluate_transmit config second.1 second.0.not_before_tick size in
        (third.0.status ≡ allowed) × (second.0.not_before_tick ≤ max now p.next_transmit_tick + 510)
  evaluate_transmit_third p now ready h k =
      let q = refill config p now in
      let t = (decide config q now size).not_before_tick in
      let u = (decide config (refill config q t) t size).not_before_tick in
      let at_first = refill-IsReady p now now ready (omega arith) (omega arith) in
      let tick_first = decide_tick q now (omega arith) in
      let again = refill-IsReady p now t ready (omega arith) (omega arith) in
      let tick_second = decide_tick (refill config q t) t (omega arith) in
      let at_second = refill-IsReady q t t again.0 (omega arith) (omega arith) in
      let last = refill-IsReady q t u again.0 (omega arith) (omega arith) in
      rw (evaluate_transmit-refill p now ready, evaluate_transmit-refill q t again.0)
        (
          decide_later (refill config q t) t u last.0 last.1 last.2 (omega arith) (omega arith)
              (tick_second.3 (omega arith)),
          omega arith,
        )
