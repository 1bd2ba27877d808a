-- ===== src/Adapters/Paced/Limit.antt =====
-- What the transport accepts in a span of time.
use native.Mathlib.Nat.{mul-le-mul_left}
use lora_messenger.Common.{
  ℕ, ◌+◌, ◌-◌, ◌*◌, ◌^◌, ◌≤◌, ◌<◌, ◌≡◌, refl, ap, Option, none, some, List, [], ◌∷◌, All, nat_eq,
  arith, Bool-cases, inl, inr,
}
use lora_messenger.Protocol.Limits.{Bytes}
use lora_messenger.Application.TransmissionScheduler.Messages.{
  PendingMessage, TransmissionScheduler, Medium, DatagramSendStatus, accepted, would_block,
  disconnected, closed_status, invalid_datagram,
}
use lora_messenger.Application.TransmissionScheduler.Turns.{pump_front}
use lora_messenger.Application.TransmissionScheduler.{pump}
use lora_messenger.Adapters.Bucket.Steps.{IsBucket}
use lora_messenger.Adapters.Budget.{run, total, Before, run-Steps}
use lora_messenger.Adapters.LanPolicy.Steps.{lan_policy-IsBudget}
use lora_messenger.Adapters.LanPolicy.{LanBroadcastPolicyConfig, LanBroadcastPolicy, lan_policy}
use lora_messenger.Adapters.Paced.{
  Link, medium_of, asks, sent_calls, front_calls, queue_calls, queue_bytes, paced_bytes,
}
use lora_messenger.Adapters.Paced.Counted.{front_calls-total}

sent_calls-Before :
    (t now : ℕ) (offer : Option (Bytes × DatagramSendStatus))
    → now ≤ t
    → All (Before t) (sent_calls now offer)
sent_calls-Before t now none h = tt
sent_calls-Before t now (some (frame, accepted)) h = (h, tt)
sent_calls-Before t now (some (frame, would_block)) h = tt
sent_calls-Before t now (some (frame, disconnected)) h = tt
sent_calls-Before t now (some (frame, closed_status)) h = tt
sent_calls-Before t now (some (frame, invalid_datagram)) h = tt

queue_calls-Before :
    (medium : Medium) (t now : ℕ) (pending : List PendingMessage)
    → now ≤ t
    → All (Before t) (queue_calls medium now pending)
unfolding front_calls
queue_calls-Before medium t now [] h = tt
queue_calls-Before medium t now (m ∷ rest) h = elim (Bool-cases (asks medium now m)) [
  | inl e ↦ simp e (h, sent_calls-Before t now (pump_front medium now m).offer h)
  | inr e ↦ simp e tt
]

abbrev pub InTime : ℕ → Link × ℕ → Type 0
InTime t call = call.1 ≤ t

module _ (config : LanBroadcastPolicyConfig) where
  module _ (rate : 0 < config.refill_bytes_per_ms) (t : ℕ) (h : t < 2 ^ 64) where
    queue_calls-total :
        (p : LanBroadcastPolicy) (now : ℕ) (link : Link) (pending : List PendingMessage)
        → IsBucket config.bucket_capacity_bytes p
        → now ≤ t
        → let medium = medium_of config p link in
          total (lan_policy config) p (queue_calls medium now pending)
          ≡ queue_bytes medium now pending
    unfolding total
    queue_calls-total p now link [] ok l = refl
    queue_calls-total p now link (m ∷ rest) ok l =
        front_calls-total config rate p ok now (omega arith) link m

    paced_bytes-budget :
        (calls : List (Link × ℕ)) (s : TransmissionScheduler) (p : LanBroadcastPolicy)
        → IsBucket config.bucket_capacity_bytes p
        → p.last_refill_tick ≤ t
        → All (InTime t) calls
        → paced_bytes config calls s p + config.refill_bytes_per_ms * p.last_refill_tick
          ≤ p.tokens + config.refill_bytes_per_ms * t
    unfolding paced_bytes
    paced_bytes-budget [] s p ok l hc = omega (arith, mul-le-mul_left config.refill_bytes_per_ms l)
    paced_bytes-budget ((link, now) ∷ calls) s p ok l hc =
        let medium = medium_of config p link in
        let asked = queue_calls medium now s.pending in
        let step =
          run-Steps (lan_policy-IsBudget config rate) t p asked h ok l
            (queue_calls-Before medium t now s.pending hc.0) in
        let counted = queue_calls-total p now link s.pending ok hc.0 in
        let rest =
          paced_bytes-budget calls (pump medium now s).1 (run (lan_policy config) p asked) step.ok
            (omega (arith, step.bounded, l)) hc.1 in
        omega (arith, step.paid, counted, rest)

  -- Let the rate be positive and the policy well-formed. In any calls of `pump` up to tick `t`, of any
  -- queue and whatever the transport answers, the transport accepts at most the bytes of the bucket
  -- and those refilled since the last refill.
  pub paced_bytes_limit :
      (s : TransmissionScheduler) (p : LanBroadcastPolicy) (t : ℕ) (calls : List (Link × ℕ))
      → 0 < config.refill_bytes_per_ms
      → IsBucket config.bucket_capacity_bytes p
      → t < 2 ^ 64
      → p.last_refill_tick ≤ t
      → All (InTime t) calls
      → paced_bytes config calls s p
        ≤ config.bucket_capacity_bytes + config.refill_bytes_per_ms * (t - p.last_refill_tick)
  paced_bytes_limit s p t calls rate ok h l hc =
      let budget = paced_bytes-budget rate t h calls s p ok l hc in
      let back : p.last_refill_tick + (t - p.last_refill_tick) ≡ t = omega arith in
      let split = ap (λ (x : ℕ). config.refill_bytes_per_ms * x) back in
      grind (arith, budget, split, ok.full)
