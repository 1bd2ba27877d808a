-- ===== src/Protocol/FrameCodec/Counts.antt =====
-- The arithmetic of canonical fragments: as many as needed, all full but the last.
use native.Mathlib.Nat.{div-add-mod, mod-lt}
use lora_messenger.Common.{ℕ, zero, suc, ◌+◌, ◌-◌, ◌*◌, ◌<◌, ◌≤◌, ◌≡◌, arith, true}
use lora_messenger.Core.Result.{success}
use lora_messenger.Protocol.Limits.{is_supported_mtu, frame_payload_capacity}
use lora_messenger.Protocol.FrameCodec.{
  validate_frame_fields, expected_count, expected_payload_size,
}

pub total-le-capacity : (total c : ℕ) → 0 < c → total ≤ c * expected_count total c
unfolding expected_count
total-le-capacity total c h = omega (arith, div-add-mod (total + c - 1) c, mod-lt (total + c - 1) h)

pub capacity-lt-total : (total c : ℕ) → 0 < c → 0 < total → c * (expected_count total c - 1) < total
unfolding expected_count
capacity-lt-total total c h k =
    grind (arith, div-add-mod (total + c - 1) c, mod-lt (total + c - 1) h)

-- What `validate_frame_fields` establishes.
pub record Fields (sequence index count total size mtu : ℕ) : Type 0 where
  pub sequence_pos : 0 < sequence
  pub total_lower : 46 ≤ total
  pub total_upper : total ≤ 316
  pub index_lt : index < count
  pub count_le : count ≤ 16
  pub size_pos : 0 < size
  pub size_le : size ≤ 227
  pub count_exact : count ≡ expected_count total (frame_payload_capacity mtu)
  pub size_exact : size ≡ expected_payload_size index count total (frame_payload_capacity mtu)

pub validate_frame_fields-Fields :
    (sequence index count total size mtu : ℕ)
    → validate_frame_fields sequence index count total size mtu ≡ success tt
    → Fields sequence index count total size mtu
unfolding validate_frame_fields
validate_frame_fields-Fields sequence index count total size mtu h = ground arith

pub Fields-validate_frame_fields :
    (sequence index count total size mtu : ℕ)
    → Fields sequence index count total size mtu
    → validate_frame_fields sequence index count total size mtu ≡ success tt
unfolding validate_frame_fields
Fields-validate_frame_fields sequence index count total size mtu f = ground arith

pub capacity_lem :
    (mtu : ℕ)
    → is_supported_mtu mtu ≡ true
    → (20 ≤ frame_payload_capacity mtu) × (frame_payload_capacity mtu + 28 ≡ mtu) × (mtu ≤ 255)
unfolding frame_payload_capacity is_supported_mtu
capacity_lem mtu h = ground arith

-- No fragment is larger than the capacity.
pub expected_payload_size-le :
    (index total c : ℕ) → 0 < c → expected_payload_size index (expected_count total c) total c ≤ c
unfolding expected_payload_size
expected_payload_size-le index total c h =
    ground (arith, total-le-capacity total c h, split (expected_count total c) c)
  where
    split : (n c : ℕ) → c * n ≤ c * (n - 1) + c
    split zero c = omega arith
    split (suc n) c = grind arith
