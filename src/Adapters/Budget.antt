-- ===== src/Adapters/Budget.antt =====
-- `IRadioPolicy` of src/ports/radio_policy.h as an interface, and what a policy with the laws of a
-- token bucket lets through in a run of calls. Both policies of src/adapters fill the laws.
use native.Mathlib.Nat.{mul-le-mul_left}
use lora_messenger.Common.{
  ap, ℕ, ◌+◌, ◌-◌, ◌*◌, ◌^◌, ◌≤◌, ◌<◌, ◌≡◌, true, List, [], ◌∷◌, All, if◌then◌else◌, arith,
}
use lora_messenger.Application.TransmissionScheduler.Messages.{
  RadioTransmitDecision, saturating_add,
}
use lora_messenger.Adapters.Bucket.{TokenBucket}
use lora_messenger.Adapters.Bucket.Steps.{IsBucket, Steps, Sent}

-- The methods, and what a datagram of some size costs.
pub record Policy : Type 0 where
  pub evaluate_transmit : TokenBucket → ℕ → ℕ → RadioTransmitDecision × TokenBucket
  pub record_transmit : TokenBucket → ℕ → ℕ → TokenBucket
  pub cost : ℕ → ℕ

-- A call of one of the methods: its tick, and the size of the datagram.
pub data Call : Type 0 where
  evaluate record_sent : ℕ → ℕ → Call

abbrev pub tick : Call → ℕ
tick (evaluate now size) = now
tick (record_sent at size) = at

abbrev pub Before : ℕ → Call → Type 0
Before t c = tick c ≤ t

module _ (P : Policy) where
  abbrev pub after : TokenBucket → Call → TokenBucket
  after p (evaluate now size) = (P.evaluate_transmit p now size).1
  after p (record_sent at size) = P.record_transmit p at size

  -- A transmission counts if the policy does not refuse to go on after it.
  abbrev pub spent : TokenBucket → Call → ℕ
  spent p (evaluate now size) = 0
  spent p (record_sent at size) = if (P.record_transmit p at size).valid then P.cost size else 0

  unfoldable pub run : TokenBucket → List Call → TokenBucket
  run p [] = p
  run p (c ∷ cs) = run (after p c) cs

  unfoldable pub total : TokenBucket → List Call → ℕ
  total p [] = 0
  total p (c ∷ cs) = spent p c + total (after p c) cs

pub record IsBudget (P : Policy) (earned period capacity gap : ℕ) : Type 0 where
  pub evaluated :
      (p : TokenBucket) (now size : ℕ)
      → IsBucket capacity p
      → now < 2 ^ 64
      → Steps earned period capacity p now 0 (P.evaluate_transmit p now size).1
  pub recorded :
      (p : TokenBucket) (at size : ℕ)
      → IsBucket capacity p
      → at < 2 ^ 64
      → let after = P.record_transmit p at size in
        Steps earned period capacity p at (if after.valid then P.cost size else 0) after
        × (after.valid ≡ true → Sent earned period capacity gap p at (P.cost size) after)

earned_le :
    (period earned spent left tokens first last t : ℕ)
    → first ≤ t
    → period * (spent + left) + earned * first ≤ period * tokens + earned * last
    → last ≤ t
    → period * spent ≤ period * tokens + earned * (t - first)
earned_le period earned spent left tokens first last t h e k =
    let grows : earned * last ≤ earned * t = mul-le-mul_left earned k in
    let split : first + (t - first) ≡ t = omega arith in
    let total : earned * (first + (t - first)) ≡ earned * t = ap (λ (x : ℕ). earned * x) split in
    grind arith

module _ {P : Policy} {earned period capacity gap : ℕ}
    (budget : IsBudget P earned period capacity gap) where
  after-Steps :
      (p : TokenBucket) (c : Call)
      → IsBucket capacity p
      → tick c < 2 ^ 64
      → Steps earned period capacity p (tick c) (spent P p c) (after P p c)
  after-Steps p (evaluate now size) ok h = budget.evaluated p now size ok h
  after-Steps p (record_sent at size) ok h = (budget.recorded p at size ok h).0

  pub run-Steps :
      (t : ℕ) (p : TokenBucket) (calls : List Call)
      → t < 2 ^ 64
      → IsBucket capacity p
      → p.last_refill_tick ≤ t
      → All (Before t) calls
      → Steps earned period capacity p t (total P p calls) (run P p calls)
  unfolding run total
  run-Steps t p [] h ok hs hc = record {
    ok = ok;
    paid = omega arith;
    forward = omega arith;
    bounded = omega arith;
    next = omega arith;
  }
  run-Steps t p (c ∷ cs) h ok hs hc =
      let step = after-Steps p c ok (omega (arith, hc.0)) in
      let rest = run-Steps t (after P p c) cs h step.ok (omega (arith, hc.0, step.bounded)) hc.1 in
      record {
        ok = rest.ok;
        paid = grind arith;
        forward = omega arith;
        bounded = omega (arith, hc.0);
        next = omega arith;
      }

  -- A transmission at tick `at` and those after it, up to tick `t`.
  pub record_transmit-Limits :
      (p : TokenBucket)
      → IsBucket capacity p
      → (at size t : ℕ) → at ≤ t
      → t < 2 ^ 64
      → (P.record_transmit p at size).valid ≡ true
      → (calls : List Call) → All (Before t) calls
      → let sent = P.record_transmit p at size in
        Sent earned period capacity gap p at (P.cost size) sent
        × (period * (P.cost size + total P sent calls)
            ≤ period * capacity + earned * (t - sent.last_refill_tick))
        × ((next next_size : ℕ)
            → next ≤ t
            → (P.record_transmit (run P sent calls) next next_size).valid ≡ true
            → saturating_add at gap ≤ next)
  record_transmit-Limits p ok at size t ha ht e calls hc =
      let q = P.record_transmit p at size in
      let (step, is_sent) = budget.recorded p at size ok (omega arith) in
      let sent = is_sent e in
      let rest = run-Steps t q calls ht step.ok (omega (arith, sent.last)) hc in
      let limit =
        earned_le period earned (total P q calls) (run P q calls).tokens q.tokens q.last_refill_tick
          (run P q calls).last_refill_tick t (omega (arith, sent.last)) rest.paid
          (omega (arith, rest.bounded, sent.last)) in
      let left : period * (P.cost size + q.tokens) ≤ period * capacity =
        mul-le-mul_left period sent.left in
      (
        sent,
        grind arith,
        λ next next_size hn v.
            let again =
              (budget.recorded (run P q calls) next next_size rest.ok (omega arith)).1 v in
            omega (arith, sent.next, rest.next, again.free),
      )
