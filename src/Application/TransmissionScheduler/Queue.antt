-- ===== src/Application/TransmissionScheduler/Queue.antt =====
-- The queue of outgoing messages stays well-formed under `enqueue` and `pump`.
use lora_messenger.Common.{
  ℕ, zero, suc, ◌+◌, ◌*◌, ◌<◌, ◌≤◌, ◌≡◌, refl, ◌||◌, Option, some, List, [], ◌∷◌, length, get_or,
  replicate, ltb, leb, nat_eq, All, All-append, arith, Bool-cases, Option-cases, inl, inr,
  length-append, length-replicate,
}
use lora_messenger.Core.Result.{Result-cases}
use lora_messenger.Model.Post.{PostPayload}
use lora_messenger.Protocol.Limits.{Bytes, minimum_transport_mtu, maximum_transport_mtu}
use lora_messenger.Protocol.Fragmenter.{fragment_post}
use lora_messenger.Protocol.Fragmenter.Correct.{fragment_post-some}
use lora_messenger.Application.TransmissionScheduler.{
  take_turn, pump, pump_pending, counted_metrics,
}
use lora_messenger.Application.TransmissionScheduler.Turns.{
  Turn, keep, drop_front, fail_front, announce, pump_front,
}
use lora_messenger.Application.TransmissionScheduler.Messages.{
  PendingMessage, TransmissionScheduler, Medium, maximum_outbound_messages, any_pending,
  new_pending, with_pending, enqueue,
}
use lora_messenger.Application.TransmissionScheduler.Invariant.{
  IsPending, IsTurn, AtMostTwo, pump_front-IsTurn,
}

pub record IsScheduler (s : TransmissionScheduler) : Type 0 where
  pub size_le : length s.pending ≤ 16
  pub in_range : All IsPending s.pending

zeros : (n : ℕ) → All AtMostTwo (replicate n 0)
zeros zero = tt
zeros (suc n) = (omega arith, zeros n)

get_or-zeros : (n i : ℕ) → get_or {A = ℕ} (replicate n 0) i 0 ≡ 0
get_or-zeros zero i = refl
get_or-zeros (suc n) zero = refl
get_or-zeros (suc n) (suc i) = get_or-zeros n i

new_pending-IsPending :
    (post : PostPayload) (mtu now : ℕ) (frames : List Bytes) (jitter : List ℕ)
    → 0 < length frames
    → length jitter ≡ 2 * length frames + 2
    → IsPending (new_pending post mtu now frames jitter)
unfolding new_pending
new_pending-IsPending post mtu now frames jitter h k = record {
  index_lt = h;
  counts_size = length-replicate (length frames) 0;
  jitter_size = k;
  counts_le = zeros (length frames);
  jitter_used = omega arith;
  front_le = λ first. omega (arith, get_or-zeros (length frames) 0);
  untouched = λ first i l. get_or-zeros (length frames) i;
}

-- If `fill` gives as many bytes as it is asked for, `enqueue` keeps the queue well-formed, whatever
-- comes of it.
pub enqueue-IsScheduler :
    (fill : ℕ → Option (List ℕ)) (s : TransmissionScheduler) (post : PostPayload) (mtu now : ℕ)
    → ((n : ℕ) (bytes : List ℕ) → fill n ≡ some bytes → length bytes ≡ n)
    → IsScheduler s
    → IsScheduler (enqueue fill s post mtu now).1
unfolding enqueue with_pending
enqueue-IsScheduler fill s post mtu now filled v =
    elim (Bool-cases (ltb mtu minimum_transport_mtu || ltb maximum_transport_mtu mtu)) [
      | inl bad ↦ rw bad v
      | inr good ↦ elim (Bool-cases (leb maximum_outbound_messages (length s.pending))) [
        | inl full ↦ rw (good, full) v
        | inr room ↦ elim (Bool-cases (any_pending s.pending post.message_id)) [
          | inl there ↦ rw (good, room, there) v
          | inr fresh ↦ elim (Result-cases (fragment_post post mtu)) [
            | inr (error, e) ↦ rw (good, room, fresh, e) v
            | inl (frames, e) ↦ elim (Option-cases (fill (2 * length frames + 2))) [
              | inl nothing ↦ rw (good, room, fresh, e, nothing) v
              | inr (jitter, f) ↦
                  let p = new_pending post mtu now frames jitter in
                  rw (good, room, fresh, e, f)
                    (record {
                      size_le = ground (arith, length-append s.pending (p ∷ []), room);
                      in_range = All-append IsPending s.pending (p ∷ []) v.in_range (
                        new_pending-IsPending post mtu now frames jitter
                            (fragment_post-some post mtu e)
                            (filled (2 * length frames + 2) jitter f),
                        tt,
                      );
                    })
            ]
          ]
        ]
      ]
    ]

take_turn-IsScheduler :
    (s : TransmissionScheduler) (p : PendingMessage) (rest : List PendingMessage) (turn : Turn)
    → length rest + 1 ≤ 16
    → All IsPending rest
    → IsTurn turn
    → IsScheduler (take_turn s p rest turn).1
unfolding take_turn with_pending
take_turn-IsScheduler s p rest (keep q) h r t = record {
  size_le = omega (arith, h);
  in_range = (t, r);
}
take_turn-IsScheduler s p rest drop_front h r t = record {
  size_le = omega (arith, h);
  in_range = r;
}
take_turn-IsScheduler s p rest fail_front h r t = record {
  size_le = omega (arith, h);
  in_range = r;
}
take_turn-IsScheduler s p rest (announce q) h r t = record {
  size_le = omega (arith, h);
  in_range = (t, r);
}

pump_pending-IsScheduler :
    (medium : Medium) (now : ℕ) (s : TransmissionScheduler) (pending : List PendingMessage)
    → length pending ≤ 16
    → All IsPending pending
    → IsScheduler s
    → IsScheduler (pump_pending medium now s pending).1
unfolding pump_pending
pump_pending-IsScheduler medium now s [] h r v = v
pump_pending-IsScheduler medium now s (p ∷ rest) h r v =
    take_turn-IsScheduler
      (record {
        pending = s.pending;
        metrics = counted_metrics s.metrics (pump_front medium now p);
      })
      p rest (pump_front medium now p).turn (omega (arith, h)) r.1
      (pump_front-IsTurn p now r.0 medium)

-- Whatever the transport and the policy answer, `pump` keeps the queue well-formed: at most 16
-- messages, each with its indices in range and at most two offers for each of its fragments.
pub pump-IsScheduler :
    (medium : Medium) (now : ℕ) (s : TransmissionScheduler)
    → IsScheduler s
    → IsScheduler (pump medium now s).1
unfolding pump
pump-IsScheduler medium now s v =
    pump_pending-IsScheduler medium now s s.pending v.size_le v.in_range v
