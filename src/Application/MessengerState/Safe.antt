-- ===== src/Application/MessengerState/Safe.antt =====
-- The order of the two commits of `compose`: no sequence number is used twice, whatever the store answers.
use lora_messenger.Common.{
  ◌≤◌, ◌≡◌, refl, sym, ◌∙◌, subst, Bool, true, false, ◌⊎◌, inl, inr, Option, some, arith,
}
use lora_messenger.Model.Identity.{Identity}
use lora_messenger.Model.Timeline.State.{Timeline}
use lora_messenger.Application.MessengerState.{Outcome, adopt_timeline}
use lora_messenger.Application.MessengerState.Results.{MessengerState, StateCommit, CommandResult}
use lora_messenger.Application.MessengerState.Local.{LocalBelow, LocalBelow-more}

-- The contract of `IStateCommit`, told by what the store holds: a value that is taken is durable, a
-- value that is not taken is durable or was not adopted, and nothing else changes.
pub record IsCommit {Store : Type 0} (port : StateCommit Store)
    (stored_identity : Store → Option Identity) (stored_timeline : Store → Option Timeline)
    : Type 0 where
  pub identity_taken :
      (s : Store) (i : Identity)
      → (port.persist_identity s i).0 ≡ true
      → stored_identity (port.persist_identity s i).1 ≡ some i
  pub identity_refused :
      (s : Store) (i : Identity)
      → (port.persist_identity s i).0 ≡ false
      → (stored_identity (port.persist_identity s i).1 ≡ stored_identity s)
        ⊎ (stored_identity (port.persist_identity s i).1 ≡ some i)
  pub identity_only :
      (s : Store) (i : Identity) → stored_timeline (port.persist_identity s i).1 ≡ stored_timeline s
  pub timeline_written :
      (s : Store) (t : Timeline)
      → (stored_timeline (port.persist_timeline s t).1 ≡ stored_timeline s)
        ⊎ (stored_timeline (port.persist_timeline s t).1 ≡ some t)
  pub timeline_only :
      (s : Store) (t : Timeline) → stored_identity (port.persist_timeline s t).1 ≡ stored_identity s

module _ {Store : Type 0} (port : StateCommit Store) (stored_identity : Store → Option Identity)
    (stored_timeline : Store → Option Timeline) where
  -- The stored identity is this device's and its last number is not behind; no post of this device,
  -- in memory or stored, has a number that is still to be issued.
  pub record IsSafe (state : MessengerState) (store : Store) (mine : Identity) : Type 0 where
    pub known : state.identity ≡ some mine
    pub kept : Identity
    pub stored : stored_identity store ≡ some kept
    pub same_install : kept.install_id ≡ mine.install_id
    pub ahead : mine.last_issued_sender_sequence ≤ kept.last_issued_sender_sequence
    pub memory_below : LocalBelow mine.last_issued_sender_sequence state.timeline
    pub stored_below :
        (t : Timeline)
        → stored_timeline store ≡ some t
        → LocalBelow mine.last_issued_sender_sequence t

  module _ (contract : IsCommit port stored_identity stored_timeline) where
    -- The identity that is to be adopted.
    pub record IsNext (mine candidate : Identity) : Type 0 where
      pub install : candidate.install_id ≡ mine.install_id
      pub more : mine.last_issued_sender_sequence ≤ candidate.last_issued_sender_sequence

    pub refused-IsSafe :
        (state : MessengerState) (store : Store) (candidate mine : Identity)
        (v : IsSafe state store mine)
        → IsNext mine candidate
        → (port.persist_identity store candidate).0 ≡ false
        → IsSafe state (port.persist_identity store candidate).1 mine
    refused-IsSafe state store candidate mine v next e =
        let below : (t : Timeline)
            → stored_timeline (port.persist_identity store candidate).1 ≡ some t
            → LocalBelow mine.last_issued_sender_sequence t =
          λ t h. v.stored_below t (sym (contract.identity_only store candidate) ∙ h) in
        elim (contract.identity_refused store candidate e) [
          | inl old ↦ record {
            known = v.known;
            kept = v.kept;
            stored = old ∙ v.stored;
            same_install = v.same_install;
            ahead = v.ahead;
            memory_below = v.memory_below;
            stored_below = below;
          }
          | inr new ↦ record {
            known = v.known;
            kept = candidate;
            stored = new;
            same_install = next.install;
            ahead = next.more;
            memory_below = v.memory_below;
            stored_below = below;
          }
        ]

    pub taken-IsSafe :
        (state : MessengerState) (store : Store) (candidate mine : Identity)
        (v : IsSafe state store mine)
        → IsNext mine candidate
        → (port.persist_identity store candidate).0 ≡ true
        → IsSafe
            (record { identity = some candidate; timeline = state.timeline })
            (port.persist_identity store candidate).1
            candidate
    taken-IsSafe state store candidate mine v next e = record {
      known = refl;
      kept = candidate;
      stored = contract.identity_taken store candidate e;
      same_install = refl;
      ahead = omega arith;
      memory_below =
          LocalBelow-more mine.last_issued_sender_sequence candidate.last_issued_sender_sequence
            state.timeline.entries next.more v.memory_below;
      stored_below = λ t h.
          LocalBelow-more mine.last_issued_sender_sequence candidate.last_issued_sender_sequence
            t.entries next.more
            (v.stored_below t (sym (contract.identity_only store candidate) ∙ h));
    }

    pub timeline-IsSafe :
        (state : MessengerState) (store : Store) (candidate : Timeline) (mine : Identity)
        (v : IsSafe state store mine)
        → LocalBelow mine.last_issued_sender_sequence candidate
        → IsSafe state (port.persist_timeline store candidate).1 mine
    timeline-IsSafe state store candidate mine v below = record {
      known = v.known;
      kept = v.kept;
      stored = contract.timeline_only store candidate ∙ v.stored;
      same_install = v.same_install;
      ahead = v.ahead;
      memory_below = v.memory_below;
      stored_below = λ t h. elim (contract.timeline_written store candidate) [
        | inl old ↦ v.stored_below t (sym old ∙ h)
        | inr new ↦ subst (LocalBelow mine.last_issued_sender_sequence) (same (sym new ∙ h)) below
      ];
    }
      where
        same : {a b : Timeline} → ◌≡◌ {A = Option Timeline} (some a) (some b) → a ≡ b
        same e = cc e

    abbrev pub IsSafeAfter : Outcome (some port) → Type 0
    IsSafeAfter (result, state, store) = (mine : Identity) × IsSafe state store mine

    pub adopted-IsSafe :
        (result : CommandResult) (state : MessengerState) (candidate : Timeline)
        (answer : Bool × Store) (mine : Identity) (v : IsSafe state answer.1 mine)
        → LocalBelow mine.last_issued_sender_sequence candidate
        → IsSafeAfter (adopt_timeline (some port) result state candidate answer)
    adopted-IsSafe result state candidate (false, store) mine v below = (mine, v)
    adopted-IsSafe result state candidate (true, store) mine v below = (
      mine,
      record {
        known = v.known;
        kept = v.kept;
        stored = v.stored;
        same_install = v.same_install;
        ahead = v.ahead;
        memory_below = below;
        stored_below = v.stored_below;
      },
    )
