-- ===== src/Core/Uuid.antt =====
-- src/core/uuid.h and uuid.cpp: identifiers. A `std::array<std::uint8_t, 16>` is a list, with the
-- size and the bytes' range in `IsUuid`.
pub mod Version
pub mod Form
pub mod RoundTrip
pub mod Tests
use lora_messenger.Common.{
  ℕ, zero, suc, ◌+◌, ◌*◌, ◌/◌, ◌%◌, ◌≡◌, Bool, true, false, not, ◌&&◌, Option, none, some, List, [],
  ◌∷◌, length, All, get_or, set, ◌==◌, nat_eq, Eq, list_eq, list_beq_iff, ◌↔◌, if◌then◌else◌, arith,
}
use lora_messenger.Core.Result.{Result, success, failure, ◌>>=◌, ◌>>◌, reject}
use lora_messenger.Words.Network.{IsByte}

pub record Uuid : Type 0 where
  pub bytes : List ℕ

pub record IsUuid (u : Uuid) : Type 0 where
  pub size : length u.bytes ≡ 16
  pub range : All IsByte u.bytes

abbrev pub uuid_beq : Uuid → Uuid → Bool
uuid_beq left right = left.bytes == right.bytes

pub uuid_beq_iff : (a b : Uuid) → (uuid_beq a b ≡ true) ↔ (a ≡ b)
uuid_beq_iff a b = ground (arith, list_beq_iff a.bytes b.bytes)

instance abbrev pub uuid_eq : Eq Uuid
uuid_eq = record { beq = uuid_beq; beq_iff = uuid_beq_iff }

unfoldable pub all_zero : List ℕ → Bool
all_zero [] = true
all_zero (b ∷ bs) = b == 0 && all_zero bs

unfoldable pub is_nil : Uuid → Bool
unfolding all_zero
is_nil u = all_zero u.bytes

-- `bytes_[6] & 0xf0` is the upper half of the byte, `bytes_[8] & 0xc0` its two upper bits.
unfoldable pub is_v4 : Uuid → Bool
unfolding is_nil
is_v4 u = not (is_nil u) && get_or u.bytes 6 0 / 16 == 4 && get_or u.bytes 8 0 / 64 == 2

-- `filled` is what `IRandomBytes::fill` wrote, or `none` where it returned false.
unfoldable pub generate_v4 : Option (List ℕ) → Option Uuid
generate_v4 none = none
generate_v4 (some filled) =
    let bytes = set filled 6 (get_or filled 6 0 % 16 + 0x40) in
    let bytes = set bytes 8 (get_or bytes 8 0 % 64 + 0x80) in some (record { bytes = bytes })

pub data IdError : Type 0 where
  invalid_uuid_v4 random_unavailable : IdError

pub record InstallId : Type 0 where
  pub uuid : Uuid

pub record MessageId : Type 0 where
  pub uuid : Uuid

abbrev pub install_id_beq : InstallId → InstallId → Bool
install_id_beq left right = left.uuid == right.uuid

pub install_id_beq_iff : (a b : InstallId) → (install_id_beq a b ≡ true) ↔ (a ≡ b)
install_id_beq_iff a b = ground (arith, uuid_beq_iff a.uuid b.uuid)

instance abbrev pub install_id_eq : Eq InstallId
install_id_eq = record { beq = install_id_beq; beq_iff = install_id_beq_iff }

abbrev pub message_id_beq : MessageId → MessageId → Bool
message_id_beq left right = left.uuid == right.uuid

pub message_id_beq_iff : (a b : MessageId) → (message_id_beq a b ≡ true) ↔ (a ≡ b)
message_id_beq_iff a b = ground (arith, uuid_beq_iff a.uuid b.uuid)

instance abbrev pub message_id_eq : Eq MessageId
message_id_eq = record { beq = message_id_beq; beq_iff = message_id_beq_iff }

pub install_id_from_uuid : Uuid → Result InstallId IdError
install_id_from_uuid value = do
  reject (not (is_v4 value)) invalid_uuid_v4
  success (record { uuid = value })

pub install_id_generate : Option (List ℕ) → Result InstallId IdError
unfolding install_id_from_uuid
install_id_generate filled = elim (generate_v4 filled) [
  | none ↦ failure random_unavailable
  | some value ↦ install_id_from_uuid value
]

unfoldable pub message_id_from_uuid : Uuid → Result MessageId IdError
message_id_from_uuid value = do
  reject (not (is_v4 value)) invalid_uuid_v4
  success (record { uuid = value })

unfoldable pub message_id_generate : Option (List ℕ) → Result MessageId IdError
unfolding message_id_from_uuid
message_id_generate filled = elim (generate_v4 filled) [
  | none ↦ failure random_unavailable
  | some value ↦ message_id_from_uuid value
]
