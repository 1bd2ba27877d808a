-- ===== src/Adapters/Bucket/Steps.antt =====
-- One call of a method of a token bucket: what it spends, and how its clock moves. `earned` tokens
-- come in `period` ticks.
use native.Mathlib.Nat.{mul-le-mul_left}
use lora_messenger.Common.{
  ℕ, ◌+◌, ◌-◌, ◌*◌, ◌^◌, ◌≤◌, ◌<◌, ◌≡◌, refl, max, true, false, Bool-cases, inl, inr, arith,
  if◌then◌else◌,
}
use lora_messenger.Application.TransmissionScheduler.Messages.{
  RadioTransmitStatus, RadioTransmitDecision, allowed, deferred, locked, invalid_transmit,
  saturating_add,
}
use lora_messenger.Adapters.Bucket.{TokenBucket, invalidated, recorded, record_evaluated}

pub record IsBucket (capacity : ℕ) (p : TokenBucket) : Type 0 where
  pub room : capacity < 2 ^ 64
  pub full : p.tokens ≤ capacity
  pub word : p.last_refill_tick < 2 ^ 64
  pub unstarted : p.clock_started ≡ false → p.last_refill_tick ≡ 0

pub saturating_add-le : (t gap : ℕ) → t < 2 ^ 64 → t ≤ saturating_add t gap
unfolding saturating_add
saturating_add-le t gap h = ground arith

pub saturating_add-le-add : (a b : ℕ) → saturating_add a b ≤ a + b
unfolding saturating_add
saturating_add-le-add a b = ground arith

-- A datagram may go at tick `t` from `q`, which was refilled less than a period before.
abbrev pub Ready : ℕ → TokenBucket → ℕ → ℕ → Type 0
Ready period q t cost =
    (q.next_transmit_tick ≤ t)
    × (cost ≤ q.tokens)
    × (q.last_refill_tick ≤ t)
    × (t < q.last_refill_tick + period)

module _ (earned period capacity : ℕ) where
  pub record Steps (p : TokenBucket) (t cost : ℕ) (q : TokenBucket) : Type 0 where
    pub ok : IsBucket capacity q
    pub paid :
        period * (cost + q.tokens) + earned * p.last_refill_tick
        ≤ period * p.tokens + earned * q.last_refill_tick
    pub forward : p.last_refill_tick ≤ q.last_refill_tick
    pub bounded : q.last_refill_tick ≤ max p.last_refill_tick t
    pub next : p.next_transmit_tick ≤ q.next_transmit_tick

  module _ {p : TokenBucket} (ok : IsBucket capacity p) (t : ℕ) where
    pub stays : Steps p t 0 p
    stays = record {
      ok = ok;
      paid = omega arith;
      forward = omega arith;
      bounded = omega arith;
      next = omega arith;
    }

    pub invalidated-Steps : {q : TokenBucket} → Steps p t 0 q → Steps p t 0 (invalidated q)
    invalidated-Steps s = record {
      ok = record {
        room = s.ok.room;
        full = s.ok.full;
        word = s.ok.word;
        unstarted = s.ok.unstarted;
      };
      paid = s.paid;
      forward = s.forward;
      bounded = s.bounded;
      next = s.next;
    }

module _ (earned period capacity gap : ℕ) where
  abbrev Step : TokenBucket → ℕ → ℕ → TokenBucket → Type 0
  Step = Steps earned period capacity

  -- A datagram went at tick `t`, from `p` to `q`.
  pub record Sent (p : TokenBucket) (t cost : ℕ) (q : TokenBucket) : Type 0 where
    pub free : p.next_transmit_tick ≤ t
    pub next : q.next_transmit_tick ≡ saturating_add t gap
    pub last : q.last_refill_tick ≤ t
    pub recent : t < q.last_refill_tick + period
    pub left : cost + q.tokens ≤ capacity

  module _ {p : TokenBucket} (ok : IsBucket capacity p) (t : ℕ) (h : t < 2 ^ 64) where
    spends-Steps :
        (q : TokenBucket) (cost : ℕ)
        → Step p t 0 q
        → Ready period q t cost
        → Step p t (if q.valid then cost else 0) (recorded gap allowed q t cost)
    unfolding recorded
    spends-Steps q cost s ready = record {
      ok = record {
        room = s.ok.room;
        full = omega (arith, s.ok.full);
        word = s.ok.word;
        unstarted = s.ok.unstarted;
      };
      paid =
          let less : (if q.valid then cost else 0) + (q.tokens - cost) ≤ 0 + q.tokens =
            ground (arith, ready) in
          omega (arith, mul-le-mul_left period less, s.paid);
      forward = s.forward;
      bounded = s.bounded;
      next = omega (arith, ready, s.next, saturating_add-le t gap h);
    }

    recorded-Steps :
        (status : RadioTransmitStatus) (q : TokenBucket) (cost : ℕ)
        → Step p t 0 q
        → (status ≡ allowed → Ready period q t cost)
        → let after = recorded gap status q t cost in
          Step p t (if after.valid then cost else 0) after
          × (after.valid ≡ true → Sent q t cost after)
    unfolding recorded
    recorded-Steps allowed q cost s ready =
        let ready = ready refl in
        (
          spends-Steps q cost s ready,
          λ e. record {
            free = ready.0;
            next = refl;
            last = ready.2;
            recent = ready.3;
            left = omega (arith, s.ok.full, ready);
          },
        )
    recorded-Steps deferred q cost s ready =
        (invalidated-Steps earned period capacity ok t s, λ e. cc)
    recorded-Steps locked q cost s ready =
        (invalidated-Steps earned period capacity ok t s, λ e. cc)
    recorded-Steps invalid_transmit q cost s ready =
        (invalidated-Steps earned period capacity ok t s, λ e. cc)

    -- `record_transmit` of a policy whose `evaluate_transmit` keeps to the same laws.
    pub record_evaluated-Steps :
        (evaluation : RadioTransmitDecision × TokenBucket) (cost : ℕ)
        → Step p t 0 evaluation.1
        → (evaluation.0.status ≡ allowed → Ready period evaluation.1 t cost)
        → let after = record_evaluated gap evaluation p t cost in
          Step p t (if after.valid then cost else 0) after
          × (after.valid ≡ true → Sent p t cost after)
    unfolding record_evaluated
    record_evaluated-Steps evaluation cost s ready =
        let recorded = recorded-Steps evaluation.0.status evaluation.1 cost s ready in
        elim (Bool-cases p.valid) [
          | inl e ↦ simp e (
            recorded.0,
            λ v.
                let sent = recorded.1 v in
                record {
                  free = omega (arith, sent.free, s.next);
                  next = sent.next;
                  last = sent.last;
                  recent = sent.recent;
                  left = sent.left;
                },
          )
          | inr e ↦ simp e (stays earned period capacity ok t, λ v. cc)
        ]
