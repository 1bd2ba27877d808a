-- ===== src/Adapters/Paced/Counted.antt =====
-- What the transport accepts in `pump`, the policy counts.

use lora_messenger.Common.{
  subst, sym, ℕ, ◌+◌, ◌-◌, ◌%◌, ◌^◌, ◌<◌, ◌≡◌, refl, ap, true, false, not, ◌&&◌, ◌||◌, none, some,
  [], ◌∷◌, length, ltb, ◌==◌, nat_eq, arith, Bool-cases, inl, inr, ◌∙◌,
}
use lora_messenger.Protocol.Limits.{Bytes}
use lora_messenger.Application.TransmissionScheduler.Messages.{
  PendingMessage, Medium, DatagramSendStatus, accepted, would_block, disconnected, closed_status,
  invalid_datagram, RadioTransmitStatus, RadioTransmitDecision, allowed, deferred, locked,
  invalid_transmit,
}
use lora_messenger.Application.TransmissionScheduler.Turns.{
  Front, current_frame, by_policy, offer_frame, pump_front,
}
use lora_messenger.Adapters.Bucket.{TokenBucket, maximum_datagram_bytes, recorded, record_evaluated}
use lora_messenger.Adapters.Bucket.Steps.{IsBucket}
use lora_messenger.Adapters.Budget.{evaluate, record_sent, total}
use lora_messenger.Adapters.LanPolicy.{
  LanBroadcastPolicyConfig, LanBroadcastPolicy, refill, refill_elapsed, decide, evaluate_transmit,
  record_transmit, lan_policy,
}
use lora_messenger.Adapters.LanPolicy.Limits.{refill-Refills}
use lora_messenger.Adapters.Paced.{Link, medium_of, asks, sent_calls, accepted_bytes, front_calls}

recorded-valid :
    (gap : ℕ) (status : RadioTransmitStatus) (q : TokenBucket) (t cost : ℕ)
    → status ≡ allowed
    → q.valid ≡ true
    → (recorded gap status q t cost).valid ≡ true
unfolding recorded
recorded-valid gap allowed q t cost e v = v
recorded-valid gap deferred q t cost e v = cc
recorded-valid gap locked q t cost e v = cc
recorded-valid gap invalid_transmit q t cost e v = cc

record_evaluated-valid :
    (gap : ℕ) (status : RadioTransmitStatus) (tick : ℕ) (q : TokenBucket) (t cost : ℕ)
    → status ≡ allowed
    → q.valid ≡ true
    → (record_evaluated gap (record { status = status; not_before_tick = tick }, q) q t cost).valid
      ≡ true
unfolding record_evaluated
record_evaluated-valid gap status tick q t cost e v =
    simp v (recorded-valid gap status q t cost e v)

module _ (config : LanBroadcastPolicyConfig) where
  module _ (rate : 0 < config.refill_bytes_per_ms) (p : LanBroadcastPolicy)
      (ok : IsBucket config.bucket_capacity_bytes p) (now size : ℕ) (h : now < 2 ^ 64) where
    refill_same :
        (q : LanBroadcastPolicy)
        → q.clock_started ≡ true
        → q.last_refill_tick ≡ now
        → refill config q now ≡ q
    unfolding refill refill_elapsed
    refill_same q started last =
        let elapsed : (now + 2 ^ 64 - q.last_refill_tick) % 2 ^ 64 ≡ 0 = omega (arith, last) in
        simp (started, elapsed) refl

    evaluate_transmit_now :
        (q : LanBroadcastPolicy)
        → q.valid ≡ true
        → q.last_refill_tick ≡ now
        → (size == 0 || ltb maximum_datagram_bytes size) ≡ false
        → evaluate_transmit config q now size
          ≡ (decide config (refill config q now) now size, refill config q now)
    unfolding evaluate_transmit
    evaluate_transmit_now q valid last passed = ground (arith, valid, last, passed)

    -- What is allowed is allowed again at the same tick.
    evaluate_transmit_again :
        (evaluate_transmit config p now size).0.status ≡ allowed
        → let q = (evaluate_transmit config p now size).1 in
          (q.valid ≡ true)
          × (evaluate_transmit config q now size ≡ (decide config q now size, q))
          × ((decide config q now size).status ≡ allowed)
    unfolding evaluate_transmit
    evaluate_transmit_again =
        elim (Bool-cases (not p.valid || size == 0 || ltb maximum_datagram_bytes size)) [
          | inl refused ↦ simp refused (λ e. cc)
          | inr passed ↦ elim (Bool-cases (p.clock_started && ltb now p.last_refill_tick)) [
            | inl back ↦ simp (passed, back) (λ e. cc)
            | inr forward ↦
                simp (passed, forward)
                  λ e.
                    let refills = refill-Refills config rate ok now h forward in
                    let same = refill_same (refill config p now) refills.started refills.last in
                    let valid : p.valid ≡ true = ground (arith, passed) in
                    (
                      refills.same ∙ valid,
                      evaluate_transmit_now (refill config p now) (refills.same ∙ valid)
                            refills.last (ground (arith, passed))
                          ∙ ap (λ (r : LanBroadcastPolicy). (decide config r now size, r)) same,
                      e,
                    )
          ]
        ]

    -- So the policy counts the datagram that it allowed.
    total_allowed :
        (evaluate_transmit config p now size).0.status ≡ allowed
        → total (lan_policy config) p (evaluate now size ∷ record_sent now size ∷ []) ≡ size
    unfolding total record_transmit
    total_allowed e =
        let q = (evaluate_transmit config p now size).1 in
        let (valid, again, status) = evaluate_transmit_again e in
        let decision = decide config q now size in
        let stays_valid =
          record_evaluated-valid config.minimum_gap_ms decision.status decision.not_before_tick q
            now size status valid in
        let same : (record_transmit config q now size).valid ≡ true =
          ap
            (λ (r : RadioTransmitDecision × TokenBucket).
              (record_evaluated config.minimum_gap_ms r q now size).valid)
            again
          ∙ stays_valid in
        ground (arith, same)

asks-by_policy :
    (medium : Medium) (now : ℕ) (m : PendingMessage)
    → asks medium now m ≡ true
    → let decision = medium.evaluate_transmit now (length (current_frame m)) in
      pump_front medium now m ≡ by_policy medium now m decision.status decision.not_before_tick
unfolding asks pump_front
asks-by_policy medium now m e = ground (arith, e)

asks-none :
    (medium : Medium) (now : ℕ) (m : PendingMessage)
    → asks medium now m ≡ false
    → (pump_front medium now m).offer ≡ none
unfolding asks pump_front
asks-none medium now m e = ground (arith, e)

module _ (config : LanBroadcastPolicyConfig) (rate : 0 < config.refill_bytes_per_ms)
    (p : LanBroadcastPolicy) (ok : IsBucket config.bucket_capacity_bytes p) (now : ℕ)
    (h : now < 2 ^ 64) (link : Link) (m : PendingMessage) where
  sent_calls-total :
      (frame : Bytes) (status : DatagramSendStatus)
      → (evaluate_transmit config p now (length frame)).0.status ≡ allowed
      → total
          (lan_policy config)
          p
          (evaluate now (length frame) ∷ sent_calls now (some (frame, status)))
        ≡ accepted_bytes (some (frame, status))
  unfolding total
  sent_calls-total frame accepted e = total_allowed config rate p ok now (length frame) h e
  sent_calls-total frame would_block e = omega arith
  sent_calls-total frame disconnected e = omega arith
  sent_calls-total frame closed_status e = omega arith
  sent_calls-total frame invalid_datagram e = omega arith

  by_policy-total :
      (status : RadioTransmitStatus) (tick : ℕ)
      → (evaluate_transmit config p now (length (current_frame m))).0.status ≡ status
      → let front = by_policy (medium_of config p link) now m status tick in
        total
          (lan_policy config)
          p
          (evaluate now (length (current_frame m)) ∷ sent_calls now front.offer)
        ≡ accepted_bytes front.offer
  unfolding total by_policy offer_frame medium_of
  by_policy-total allowed tick e =
      sent_calls-total (current_frame m) (link.try_send (current_frame m)) e
  by_policy-total deferred tick e = omega arith
  by_policy-total locked tick e = omega arith
  by_policy-total invalid_transmit tick e = omega arith

  -- What the transport accepts is what the policy counts.
  pub front_calls-total :
      let medium = medium_of config p link in
      total (lan_policy config) p (front_calls medium now m)
      ≡ accepted_bytes (pump_front medium now m).offer
  unfolding total front_calls medium_of
  front_calls-total =
      let medium = medium_of config p link in
      elim (Bool-cases (asks medium now m)) [
        | inl e ↦
            let decision = (evaluate_transmit config p now (length (current_frame m))).0 in
            simp e (
              subst
                (λ (front : Front).
                  total (lan_policy config) p
                    (evaluate now (length (current_frame m)) ∷ sent_calls now front.offer)
                  ≡ accepted_bytes front.offer)
                (sym (asks-by_policy medium now m e))
                (by_policy-total decision.status decision.not_before_tick refl))
        | inr e ↦ simp e (omega (arith, ap accepted_bytes (asks-none medium now m e)))
      ]
