-- ===== src/Core/Uuid/Version.antt =====
-- Identifiers are UUIDs of version 4.
use lora_messenger.Common.{
  ℕ, ◌+◌, ◌%◌, ◌≡◌, true, some, List, ◌∷◌, length, All, All-set, length-set, ◌∙◌, get_or, set,
  nat_eq, arith, refl,
}
use lora_messenger.Core.Result.{success}
use lora_messenger.Words.Network.{IsByte}
use lora_messenger.Core.Uuid.{
  Uuid, IsUuid, is_v4, generate_v4, MessageId, message_id_from_uuid, InstallId,
  install_id_from_uuid,
}

version_set :
    (bytes : List ℕ)
    → length bytes ≡ 16
    → is_v4 (record {
      bytes =
          set
            (set bytes 6 (get_or bytes 6 0 % 16 + 0x40))
            8
            (get_or (set bytes 6 (get_or bytes 6 0 % 16 + 0x40)) 8 0 % 64 + 0x80);
    })
      ≡ true
unfolding is_v4
version_set (a ∷ b ∷ c ∷ d ∷ e ∷ f ∷ g ∷ h ∷ i ∷ rest) s = ground arith
version_set _ s = absurd (omega arith)

-- Any 16 random bytes become a UUID of 16 bytes, of version 4.
pub generate_v4-is_v4 :
    (filled : List ℕ)
    → length filled ≡ 16
    → All IsByte filled
    → (u : Uuid) × (generate_v4 (some filled) ≡ some u) × IsUuid u × (is_v4 u ≡ true)
unfolding generate_v4
generate_v4-is_v4 filled s w =
    let sixth = get_or filled 6 0 % 16 + 0x40 in
    let bytes = set filled 6 sixth in
    let eighth = get_or bytes 8 0 % 64 + 0x80 in
    let range = All-set IsByte filled 6 sixth w (omega arith) in
    (
      record { bytes = set bytes 8 eighth },
      refl,
      record {
        size = length-set bytes 8 eighth ∙ length-set filled 6 sixth ∙ s;
        range = All-set IsByte bytes 8 eighth range (omega arith);
      },
      version_set filled s,
    )

pub message_id_from_uuid-eq_success :
    (u : Uuid) {m : MessageId}
    → message_id_from_uuid u ≡ success m
    → (m.uuid ≡ u) × (is_v4 u ≡ true)
unfolding message_id_from_uuid
message_id_from_uuid-eq_success u e = ground arith

pub install_id_from_uuid-eq_success :
    (u : Uuid) {m : InstallId}
    → install_id_from_uuid u ≡ success m
    → (m.uuid ≡ u) × (is_v4 u ≡ true)
unfolding install_id_from_uuid
install_id_from_uuid-eq_success u e = ground arith

pub message_id_from_uuid_again :
    (m : MessageId) → is_v4 m.uuid ≡ true → message_id_from_uuid m.uuid ≡ success m
unfolding message_id_from_uuid
message_id_from_uuid_again m e = ground arith

pub install_id_from_uuid_again :
    (m : InstallId) → is_v4 m.uuid ≡ true → install_id_from_uuid m.uuid ≡ success m
unfolding install_id_from_uuid
install_id_from_uuid_again m e = ground arith
