-- ===== src/Application/TransmissionScheduler/Tests.antt =====
-- A queue on which `transmission_scheduler.cpp` is run.
use lora_messenger.Common.{
  ℕ, ◌+◌, ◌≡◌, refl, false, Option, some, List, [], ◌∷◌, length, get_or, zero, suc, subst,
  replicate, length-replicate, arith,
}
use lora_messenger.Common.Tests.{list_beq}
use lora_messenger.Model.Post.Tests.{sample}
use lora_messenger.Application.TransmissionScheduler.{pump, pump_pending, take_turn}
use lora_messenger.Application.TransmissionScheduler.Turns.{
  pump_front, by_policy, offer_frame, after_offer, after_accepted,
}
use lora_messenger.Application.TransmissionScheduler.Messages.{
  PendingMessage, SchedulerMetrics, TransmissionScheduler, Medium, accepted, allowed, enqueue,
  saturating_add, scaled_jitter,
}
use lora_messenger.Core.Uuid.{MessageId}
use lora_messenger.Application.TransmissionScheduler.Events.{
  unreported, reports, pump_all, pump_all-reports, pump_all-queue_empty,
}
use lora_messenger.Application.TransmissionScheduler.Queue.{
  IsScheduler, enqueue-IsScheduler, pump-IsScheduler,
}

abbrev pub no_metrics : SchedulerMetrics
no_metrics = record {
  pending_messages = 0;
  high_water_messages = 0;
  transport_offers = 0;
  accepted_datagrams = 0;
  backpressure_events = 0;
  policy_deferrals = 0;
  failed_messages = 0;
  broadcast_messages = 0;
}

-- A message of two fragments of one byte each.
abbrev pub message : PendingMessage
message = record {
  message_id = sample.message_id;
  mtu = 48;
  frames = (1 ∷ []) ∷ (2 ∷ []) ∷ [];
  jitter = 0 ∷ 1 ∷ 2 ∷ 3 ∷ 4 ∷ 5 ∷ [];
  offer_counts = 0 ∷ 0 ∷ [];
  fragment_index = 0;
  jitter_index = 1;
  due = 10;
  deadline = 60000;
  repeat_pass = false;
}

abbrev pub queue : TransmissionScheduler
queue = record { pending = message ∷ []; metrics = no_metrics }

abbrev medium : Medium
medium = record {
  maximum_datagram_size = 48;
  closed = false;
  evaluate_transmit = λ now size. record { status = allowed; not_before_tick = 0 };
  try_send = λ frame. accepted;
}

abbrev fill : ℕ → Option (List ℕ)
fill n = some (replicate n 7)

untouched : (i : ℕ) → get_or {A = ℕ} (0 ∷ 0 ∷ []) i 0 ≡ 0
untouched zero = refl
untouched (suc zero) = refl
untouched (suc (suc i)) = refl

filled : (n : ℕ) (bytes : List ℕ) → fill n ≡ some bytes → length bytes ≡ n
filled n bytes e =
    let same : replicate n 7 ≡ bytes = cc e in
    subst (λ (l : List ℕ). length l ≡ n) same (length-replicate n 7)

queue-IsScheduler : IsScheduler queue
queue-IsScheduler = record {
  size_le = ground arith;
  in_range = (
    record {
      index_lt = ground arith;
      counts_size = refl;
      jitter_size = refl;
      counts_le = (ground arith, (ground arith, tt));
      jitter_used = ground arith;
      front_le = λ first. ground arith;
      untouched = λ first i l. untouched i;
    },
    tt,
  );
}

enqueue-IsScheduler_example : IsScheduler (enqueue fill queue sample 48 5).1
enqueue-IsScheduler_example = enqueue-IsScheduler fill queue sample 48 5 filled queue-IsScheduler

pump-IsScheduler_example : IsScheduler (pump medium 20 queue).1
pump-IsScheduler_example = pump-IsScheduler medium 20 queue queue-IsScheduler

-- Both fragments are sent, then the repetition waits.
abbrev calls : List (Medium × ℕ)
calls = (medium, 20) ∷ (medium, 120) ∷ (medium, 130) ∷ []

sent_once : reports sample.message_id (pump_all calls queue).0 ≡ 1
unfolding reports pump_all pump pump_pending pump_front by_policy offer_frame after_offer
    after_accepted take_turn saturating_add scaled_jitter list_beq
sent_once = refl

pump_all-reports_example :
    let (answers, last) = pump_all calls queue in
    reports sample.message_id answers + unreported sample.message_id last.pending
    ≡ unreported sample.message_id queue.pending
pump_all-reports_example = pump_all-reports sample.message_id calls queue

pump_all-queue_empty_example :
    let (answers, last) = pump_all ((medium, 60000) ∷ []) queue in
    (last.pending ≡ []) × ((id : MessageId) → reports id answers ≡ unreported id queue.pending)
pump_all-queue_empty_example =
    pump_all-queue_empty 60000 ((medium, 60000) ∷ []) queue (ground arith) (ground arith)
      (ground arith)
