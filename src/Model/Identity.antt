-- ===== src/Model/Identity.antt =====
-- src/model/identity.h and identity.cpp: the identity of this device, and its sequence numbers.
pub mod Tests
use lora_messenger.Common.{
  ℕ, ◌+◌, ◌^◌, ◌-◌, ◌≡◌, ◌<◌, Bool, true, false, not, Option, none, some, ◌==◌, nat_eq,
  if◌then◌else◌, arith, refl,
}
use lora_messenger.Core.Text.{UserId}
use lora_messenger.Core.Uuid.{InstallId}

pub record Identity : Type 0 where
  pub install_id : InstallId
  pub user_id : UserId
  pub last_issued_sender_sequence : ℕ

abbrev pub restore_identity : InstallId → UserId → ℕ → Identity
restore_identity install_id user_id last = record {
  install_id = install_id;
  user_id = user_id;
  last_issued_sender_sequence = last;
}

unfoldable pub next_sender_sequence : Identity → Option ℕ
next_sender_sequence identity =
    if identity.last_issued_sender_sequence == 2 ^ 64 - 1
    then none
    else some (identity.last_issued_sender_sequence + 1)

-- The answer, and the identity afterwards.
unfoldable pub commit_sender_sequence : Identity → ℕ → Bool × Identity
unfolding next_sender_sequence
commit_sender_sequence identity sequence = elim (next_sender_sequence identity) [
  | none ↦ (false, identity)
  | some expected ↦
      if not (sequence == expected)
      then (false, identity)
      else (true, restore_identity identity.install_id identity.user_id sequence)
]

abbrev pub rename : Identity → UserId → Identity
rename identity user_id =
    restore_identity identity.install_id user_id identity.last_issued_sender_sequence

-- A sequence number is committed exactly if it is the next one, which fits in 64 bits; then it
-- becomes the last one issued. Any other number is refused and changes nothing.
pub commit_sender_sequence_lem :
    (identity : Identity) (sequence : ℕ)
    → identity.last_issued_sender_sequence < 2 ^ 64
    → ((commit_sender_sequence identity sequence).0 ≡ true
        → (sequence ≡ identity.last_issued_sender_sequence + 1)
          × (sequence < 2 ^ 64)
          × ((commit_sender_sequence identity sequence).1.last_issued_sender_sequence ≡ sequence))
      × ((commit_sender_sequence identity sequence).0 ≡ false
          → (commit_sender_sequence identity sequence).1 ≡ identity)
      × (sequence ≡ identity.last_issued_sender_sequence + 1
          → sequence < 2 ^ 64
          → (commit_sender_sequence identity sequence).0 ≡ true)
unfolding commit_sender_sequence next_sender_sequence
commit_sender_sequence_lem identity sequence h = ground arith
