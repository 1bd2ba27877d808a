-- ===== src/Protocol/Reassembler/Table.antt =====
-- Searches in the table of slots, before and after a change.
use lora_messenger.Common.{
  ℕ, zero, suc, ◌<◌, ◌≡◌, ◌≢◌, refl, Bool, true, false, Bool-cases, Option-cases, inl, inr, Option,
  none, some, List, [], ◌∷◌, length, set, nat_eq, list_eq, All, arith, if◌then◌else◌,
}
use lora_messenger.Protocol.Limits.{MessageTag}
use lora_messenger.Protocol.Reassembler.Slots.{
  Slot, QuarantinedKey, empty_slot, slot_has_key, is_free, is_expired, find_slot, behind,
  expire_slots, any_key, expire_keys,
}

behind-ne-none : (p : ℕ × Slot) → behind (some p) ≢ none
behind-ne-none (j, s) e = cc e

module _ (test : Slot → Bool) where
  behind-some :
      (o : Option (ℕ × Slot)) (i : ℕ) (s : Slot)
      → behind o ≡ some (i, s)
      → (j : ℕ) × (i ≡ suc j) × (o ≡ some (j, s))
  behind-some none i s e = absurd (cc e)
  behind-some (some (j, t)) i s e = (j, cc e, cc e)

  -- What a search finds, at its head or behind it.
  pub data Found (x : Slot) (xs : List Slot) (i : ℕ) (s : Slot) : Type 0 where
    at_head : test x ≡ true → i ≡ 0 → x ≡ s → Found x xs i s
    behind_head :
        (j : ℕ) → test x ≡ false → i ≡ suc j → find_slot test xs ≡ some (j, s) → Found x xs i s

  pub found :
      (x : Slot) (xs : List Slot) (i : ℕ) (s : Slot)
      → find_slot test (x ∷ xs) ≡ some (i, s)
      → Found x xs i s
  unfolding find_slot
  found x xs i s e = elim (Bool-cases (test x)) [
    | inl here ↦ at_head here (ground (arith, e, here)) (ground (arith, e, here))
    | inr later ↦
        let (j, p, q) = behind-some (find_slot test xs) i s (rw later at e) in
        behind_head j later p q
  ]

  pub find_slot-All {κ} :
      (P : Slot → Type κ) (xs : List Slot) (i : ℕ) (s : Slot)
      → find_slot test xs ≡ some (i, s)
      → All P xs
      → P s
  unfolding find_slot
  find_slot-All P [] i s e h = absurd (cc e)
  find_slot-All P (x ∷ xs) i s e h = elim (found x xs i s e) [
    | at_head t p q ↦ rw (← q) h.0
    | behind_head j t p q ↦ find_slot-All P xs j s q h.1
  ]

  pub find_slot-test :
      (xs : List Slot) (i : ℕ) (s : Slot)
      → find_slot test xs ≡ some (i, s)
      → (test s ≡ true) × (i < length xs)
  unfolding find_slot
  find_slot-test [] i s e = absurd (cc e)
  find_slot-test (x ∷ xs) i s e = elim (found x xs i s e) [
    | at_head t p q ↦ (rw (← q) t, omega arith)
    | behind_head j t p q ↦ let (u, l) = find_slot-test xs j s q in (u, omega arith)
  ]

  -- A found slot that still passes the test is found where it was.
  pub find_slot-set :
      (xs : List Slot) (i : ℕ) (s new : Slot)
      → find_slot test xs ≡ some (i, s)
      → test new ≡ true
      → find_slot test (set xs i new) ≡ some (i, new)
  unfolding find_slot
  find_slot-set [] i s new e h = absurd (cc e)
  find_slot-set (x ∷ xs) i s new e h = elim (found x xs i s e) [
    | at_head t p q ↦ rw p (rw h refl)
    | behind_head j t p q ↦ rw p (rw (t, find_slot-set xs j s new q h) refl)
  ]

  -- The only slot that passes the test is found.
  pub find_slot-set_only :
      (xs : List Slot) (i : ℕ) (new : Slot)
      → find_slot test xs ≡ none
      → i < length xs
      → test new ≡ true
      → find_slot test (set xs i new) ≡ some (i, new)
  unfolding find_slot
  find_slot-set_only [] i new e l h = absurd (omega arith)
  find_slot-set_only (x ∷ xs) zero new e l h = rw h refl
  find_slot-set_only (x ∷ xs) (suc i) new e l h = elim (Bool-cases (test x)) [
    | inl here ↦ absurd (ground (arith, e, here))
    | inr later ↦ elim (Option-cases (find_slot test xs)) [
      | inl nothing ↦ rw (later, find_slot-set_only xs i new nothing (omega arith) h) refl
      | inr (p, there) ↦ absurd (behind-ne-none p (rw (later, there) at e))
    ]
  ]

expire_head :
    (now : ℕ) (x : Slot) (xs : List Slot)
    → (expire_slots now (x ∷ xs)).0
      ≡ (if is_expired now x then empty_slot else x) ∷ (expire_slots now xs).0
unfolding expire_slots
expire_head now x xs = elim (Bool-cases (is_expired now x)) [
  | inl e ↦ ground (arith, e)
  | inr e ↦ ground (arith, e)
]

expired_nothing :
    (now : ℕ) (tag : MessageTag) (sequence : ℕ)
    → find_slot (slot_has_key tag sequence) (expire_slots now []).0 ≡ none
unfolding expire_slots find_slot
expired_nothing now tag sequence = refl

expired_key :
    (now : ℕ) (tag : MessageTag) (sequence : ℕ) (x : Slot)
    → slot_has_key tag sequence x ≡ false
    → slot_has_key tag sequence (if is_expired now x then empty_slot else x) ≡ false
unfolding empty_slot
expired_key now tag sequence x h = elim (Bool-cases (is_expired now x)) [
  | inl e ↦ rw e refl
  | inr e ↦ rw e h
]

-- Expiry leaves the slot of a message whose deadline is ahead where it is found.
pub find_slot-expire :
    (now : ℕ) (tag : MessageTag) (sequence : ℕ) (xs : List Slot) (i : ℕ) (s : Slot)
    → find_slot (slot_has_key tag sequence) xs ≡ some (i, s)
    → now < s.deadline
    → find_slot (slot_has_key tag sequence) (expire_slots now xs).0 ≡ some (i, s)
unfolding find_slot
find_slot-expire now tag sequence [] i s e h = absurd (cc e)
find_slot-expire now tag sequence (x ∷ xs) i s e h =
    elim (found (slot_has_key tag sequence) x xs i s e) [
      | at_head t p q ↦
          let alive : is_expired now x ≡ false = rw q (ground (arith, h)) in
          rw (expire_head now x xs, alive) (rw (t, p, q) refl)
      | behind_head j t p q ↦ rw (expire_head now x xs) (
          rw (expired_key now tag sequence x t, find_slot-expire now tag sequence xs j s q h, p)
            refl)
    ]

pub find_slot-expire_none :
    (now : ℕ) (tag : MessageTag) (sequence : ℕ) (xs : List Slot)
    → find_slot (slot_has_key tag sequence) xs ≡ none
    → find_slot (slot_has_key tag sequence) (expire_slots now xs).0 ≡ none
unfolding find_slot
find_slot-expire_none now tag sequence [] e = expired_nothing now tag sequence
find_slot-expire_none now tag sequence (x ∷ xs) e =
    elim (Bool-cases (slot_has_key tag sequence x)) [
      | inl t ↦ absurd (ground (arith, e, t))
      | inr t ↦ elim (Option-cases (find_slot (slot_has_key tag sequence) xs)) [
        | inl nothing ↦ rw (expire_head now x xs) (
            rw (expired_key now tag sequence x t, find_slot-expire_none now tag sequence xs nothing)
              refl)
        | inr (p, there) ↦ absurd (behind-ne-none p (rw (t, there) at e))
      ]
    ]

-- A table with a free slot has one after the expiry.
pub find_slot-expire_free :
    (now : ℕ) (xs : List Slot) (i : ℕ) (s : Slot)
    → find_slot is_free xs ≡ some (i, s)
    → (j : ℕ) × (t : Slot) × (find_slot is_free (expire_slots now xs).0 ≡ some (j, t))
unfolding find_slot
find_slot-expire_free now [] i s e = absurd (cc e)
find_slot-expire_free now (x ∷ xs) i s e = elim (found is_free x xs i s e) [
  | at_head t p q ↦
      let alive : is_expired now x ≡ false = ground (arith, t) in
      (0, x, rw (expire_head now x xs, alive) (rw t refl))
  | behind_head j t p q ↦
      let (k, u, r) = find_slot-expire_free now xs j s q in
      elim (Bool-cases (is_free (if is_expired now x then empty_slot else x))) [
        | inl here ↦ (
          0,
          (if is_expired now x then empty_slot else x),
          rw (expire_head now x xs) (rw here refl),
        )
        | inr there ↦ (suc k, u, rw (expire_head now x xs) (rw (there, r) refl))
      ]
]

pub any_key-expire :
    (now : ℕ) (tag : MessageTag) (sequence : ℕ) (keys : List QuarantinedKey)
    → any_key keys tag sequence ≡ false
    → any_key (expire_keys now keys) tag sequence ≡ false
unfolding any_key expire_keys
any_key-expire now tag sequence [] h = h
any_key-expire now tag sequence (key ∷ keys) h =
    ground (arith, h, any_key-expire now tag sequence keys)
