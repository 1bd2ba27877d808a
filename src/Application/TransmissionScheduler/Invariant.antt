-- ===== src/Application/TransmissionScheduler/Invariant.antt =====
-- Every index that the scheduler uses is in range, and a message is offered at most twice for each of
-- its fragments.
use lora_messenger.Common.{
  ℕ, zero, suc, ◌+◌, ◌*◌, ◌%◌, ◌<◌, ◌≤◌, ◌≡◌, sym, subst, true, false, not, ◌&&◌, ◌||◌, List, [],
  ◌∷◌, length, get_or, set, ltb, leb, ◌==◌, nat_eq, All, arith, Bool-cases, inl, inr, length-set,
  All-set, get_or-set_other,
}
use lora_messenger.Application.TransmissionScheduler.Turns.{
  Turn, keep, drop_front, fail_front, announce, current_frame, give_up, skip_fragment, counted,
  after_backpressure, after_accepted, after_offer, offer_frame, by_policy, pump_front,
}
use lora_messenger.Application.TransmissionScheduler.Messages.{
  PendingMessage, Medium, DatagramSendStatus, accepted, would_block, disconnected, closed_status,
  invalid_datagram, RadioTransmitStatus, allowed, deferred, locked, invalid_transmit,
}

abbrev pub sum : List ℕ → ℕ
sum [] = 0
sum (x ∷ xs) = x + sum xs

abbrev pub AtMostTwo : ℕ → Type 0
AtMostTwo n = n ≤ 2

-- In the first pass the fragments behind the current one were not offered.
abbrev pub Untouched : List ℕ → ℕ → Type 0
Untouched counts index = (i : ℕ) → index < i → get_or counts i 0 ≡ 0

pub record IsPending (p : PendingMessage) : Type 0 where
  pub index_lt : p.fragment_index < length p.frames
  pub counts_size : length p.offer_counts ≡ length p.frames
  pub jitter_size : length p.jitter ≡ 2 * length p.frames + 2
  pub counts_le : All AtMostTwo p.offer_counts
  pub jitter_used : p.jitter_index ≤ 1 + sum p.offer_counts
  pub front_le : p.repeat_pass ≡ false → get_or p.offer_counts p.fragment_index 0 ≤ 1
  pub untouched : p.repeat_pass ≡ false → Untouched p.offer_counts p.fragment_index

sum-le : (counts : List ℕ) → All AtMostTwo counts → sum counts ≤ 2 * length counts
sum-le [] h = omega arith
sum-le (x ∷ xs) h = omega (arith, h.0, sum-le xs h.1)

-- The next random byte is there.
pub jitter_index-lt : (p : PendingMessage) → IsPending p → p.jitter_index < length p.jitter
jitter_index-lt p v =
    omega (arith, v.jitter_used, v.jitter_size, v.counts_size, sum-le p.offer_counts v.counts_le)

sum-set :
    (counts : List ℕ) (i v : ℕ)
    → i < length counts
    → sum (set counts i v) + get_or counts i 0 ≡ sum counts + v
sum-set [] i v h = absurd (omega arith)
sum-set (x ∷ xs) zero v h = omega arith
sum-set (x ∷ xs) (suc i) v h = omega (arith, sum-set xs i v (omega arith))

-- What a turn leaves of the front message is still in range.
abbrev pub IsTurn : Turn → Type 0
IsTurn (keep q) = IsPending q
IsTurn drop_front = Unit {0}
IsTurn fail_front = Unit {0}
IsTurn (announce q) = IsPending q

-- The offer counts after an offer.
record Counted (p : PendingMessage) (counts : List ℕ) : Type 0 where
  size : length counts ≡ length p.frames
  all_le : All AtMostTwo counts
  used : p.jitter_index + 1 ≤ 1 + sum counts
  others : p.repeat_pass ≡ false → Untouched counts p.fragment_index

module _ (p : PendingMessage) (now : ℕ) (v : IsPending p) where
  give_up-IsTurn : IsTurn (give_up p)
  give_up-IsTurn = elim (Bool-cases p.repeat_pass) [ inl e ↦ rw e tt | inr e ↦ rw e tt ]

  counted-Counted : get_or p.offer_counts p.fragment_index 0 ≤ 1 → Counted p (counted p)
  counted-Counted h =
      let here : p.fragment_index < length p.offer_counts =
        omega (arith, v.index_lt, v.counts_size) in
      let more = (get_or p.offer_counts p.fragment_index 0 + 1) % 256 in
      record {
        size = omega (arith, length-set p.offer_counts p.fragment_index more, v.counts_size);
        all_le = All-set AtMostTwo p.offer_counts p.fragment_index more v.counts_le (omega arith);
        used = omega (arith, sum-set p.offer_counts p.fragment_index more here, v.jitter_used);
        others = λ first i l. omega (
          arith,
          get_or-set_other p.offer_counts p.fragment_index i more 0 (inl l),
          v.untouched first i l,
        );
      }

  skip_fragment-IsTurn :
      (counts : List ℕ)
      → p.repeat_pass ≡ true
      → length counts ≡ length p.frames
      → All AtMostTwo counts
      → p.jitter_index ≤ 1 + sum counts
      → IsTurn (skip_fragment p counts now)
  skip_fragment-IsTurn counts again size all used =
      elim (Bool-cases (p.fragment_index + 1 == length p.frames)) [
        | inl last ↦ rw last tt
        | inr more ↦ rw more (record {
          index_lt = ground (arith, more, v.index_lt);
          counts_size = size;
          jitter_size = v.jitter_size;
          counts_le = all;
          jitter_used = used;
          front_le = λ first. absurd (cc (first, again));
          untouched = λ first. absurd (cc (first, again));
        })
      ]

  after_backpressure-IsTurn :
      (counts : List ℕ) → Counted p counts → IsTurn (after_backpressure p counts now)
  unfolding after_backpressure
  after_backpressure-IsTurn counts c =
      elim (Bool-cases (leb 2 (get_or counts p.fragment_index 0))) [
        | inl spent ↦ elim (Bool-cases p.repeat_pass) [
          | inr first ↦ rw (spent, first) tt
          | inl again ↦
              let e : after_backpressure p counts now ≡ skip_fragment p counts now =
                ground (arith, spent, again) in
              subst IsTurn (sym e)
                (skip_fragment-IsTurn counts again c.size c.all_le (omega (arith, c.used)))
        ]
        | inr left ↦ rw left (record {
          index_lt = v.index_lt;
          counts_size = c.size;
          jitter_size = v.jitter_size;
          counts_le = c.all_le;
          jitter_used = c.used;
          front_le = λ first. ground (arith, left);
          untouched = c.others;
        })
      ]

  after_accepted-IsTurn :
      (counts : List ℕ) → Counted p counts → IsTurn (after_accepted p counts now)
  unfolding after_accepted
  after_accepted-IsTurn counts c =
      elim (Bool-cases (ltb (p.fragment_index + 1) (length p.frames))) [
        | inl more ↦ rw more (record {
          index_lt = ground (arith, more);
          counts_size = c.size;
          jitter_size = v.jitter_size;
          counts_le = c.all_le;
          jitter_used = c.used;
          front_le = λ first. omega (arith, c.others first (p.fragment_index + 1) (omega arith));
          untouched = λ first i l. c.others first i (omega (arith, l));
        })
        | inr last ↦ elim (Bool-cases p.repeat_pass) [
          | inl again ↦ rw (last, again) tt
          | inr first ↦
              rw (last, first)
                (record {
                  index_lt = omega (arith, v.index_lt);
                  counts_size = c.size;
                  jitter_size = v.jitter_size;
                  counts_le = c.all_le;
                  jitter_used = c.used;
                  front_le = λ no. absurd (cc no);
                  untouched = λ no. absurd (cc no);
                })
        ]
      ]

  after_offer-IsTurn :
      (status : DatagramSendStatus) (counts : List ℕ)
      → Counted p counts
      → IsTurn (after_offer p counts now status)
  unfolding after_offer
  after_offer-IsTurn accepted counts c = after_accepted-IsTurn counts c
  after_offer-IsTurn would_block counts c = after_backpressure-IsTurn counts c
  after_offer-IsTurn disconnected counts c = after_backpressure-IsTurn counts c
  after_offer-IsTurn closed_status counts c = give_up-IsTurn
  after_offer-IsTurn invalid_datagram counts c = give_up-IsTurn

  by_policy-IsTurn :
      (medium : Medium) (status : RadioTransmitStatus) (not_before : ℕ)
      → get_or p.offer_counts p.fragment_index 0 ≤ 1
      → IsTurn (by_policy medium now p status not_before).turn
  unfolding by_policy offer_frame
  by_policy-IsTurn medium allowed not_before h =
      after_offer-IsTurn (medium.try_send (current_frame p)) (counted p) (counted-Counted h)
  by_policy-IsTurn medium deferred not_before h = record {
    index_lt = v.index_lt;
    counts_size = v.counts_size;
    jitter_size = v.jitter_size;
    counts_le = v.counts_le;
    jitter_used = v.jitter_used;
    front_le = v.front_le;
    untouched = v.untouched;
  }
  by_policy-IsTurn medium locked not_before h = give_up-IsTurn
  by_policy-IsTurn medium invalid_transmit not_before h = give_up-IsTurn

  -- Whatever the transport and the policy answer, what `pump` leaves of the front message is in range:
  -- the fragment index, the random bytes used, and at most two offers for each fragment.
  pub pump_front-IsTurn : (medium : Medium) → IsTurn (pump_front medium now p).turn
  unfolding pump_front
  pump_front-IsTurn medium = elim (Bool-cases (leb p.deadline now)) [
    | inl late ↦ rw late give_up-IsTurn
    | inr in_time ↦ elim (Bool-cases (ltb now p.due)) [
      | inl early ↦ rw (in_time, early) v
      | inr due ↦ elim (Bool-cases (not (medium.maximum_datagram_size == p.mtu) || medium.closed)) [
        | inl lost ↦ rw (in_time, due, lost) give_up-IsTurn
        | inr there ↦
            elim (Bool-cases (p.repeat_pass && leb 2 (get_or p.offer_counts p.fragment_index 0))) [
              | inl spent ↦
                  let again : p.repeat_pass ≡ true = ground (arith, spent) in
                  rw (in_time, due, there, spent)
                    (skip_fragment-IsTurn p.offer_counts again v.counts_size v.counts_le
                      v.jitter_used)
              | inr free ↦
                  let once : get_or p.offer_counts p.fragment_index 0 ≤ 1 =
                    ground (arith, free, v.front_le) in
                  let decision = medium.evaluate_transmit now (length (current_frame p)) in
                  rw (in_time, due, there, free)
                    (by_policy-IsTurn medium decision.status decision.not_before_tick once)
            ]
      ]
    ]
  ]
