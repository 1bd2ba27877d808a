-- ===== src/Core/Text/Tests.antt =====
-- Texts on which `text.cpp` is run.
use lora_messenger.Common.{ℕ, ◌≡◌, refl, true, false, List, [], ◌∷◌, All, ◌↔◌}
use lora_messenger.Core.Result.{success}
use lora_messenger.Words.Network.{IsByte, are_bytes-IsByte}
use lora_messenger.Core.Text.{
  is_valid_utf8, validate_text, visit_utf8, scan, max_user_id_bytes, max_post_body_bytes,
}
use lora_messenger.Core.Text.Utf8.{is_valid_utf8_iff, IsScalar, encode_text}
use lora_messenger.Core.Text.Users.{validate_text_iff, IsText}

-- "Yuta"
abbrev pub yuta : List ℕ
yuta = 0x59 ∷ 0x75 ∷ 0x74 ∷ 0x61 ∷ []

-- "é€😀", of 2, 3 and 4 bytes
abbrev accents : List ℕ
accents = 0xc3 ∷ 0xa9 ∷ 0xe2 ∷ 0x82 ∷ 0xac ∷ 0xf0 ∷ 0x9f ∷ 0x98 ∷ 0x80 ∷ []

-- A surrogate, three bytes long.
abbrev surrogate : List ℕ
surrogate = 0xed ∷ 0xa0 ∷ 0x80 ∷ []

pub yuta-bytes : All IsByte yuta
yuta-bytes = are_bytes-IsByte yuta refl

pub yuta-name : validate_text yuta max_user_id_bytes true ≡ success tt
unfolding validate_text visit_utf8 scan
yuta-name = refl

pub yuta-body : validate_text yuta max_post_body_bytes false ≡ success tt
unfolding validate_text visit_utf8 scan
yuta-body = refl

accents-valid : is_valid_utf8 accents ≡ true
unfolding is_valid_utf8 visit_utf8
accents-valid = refl

surrogate-refused : is_valid_utf8 surrogate ≡ false
unfolding is_valid_utf8 visit_utf8
surrogate-refused = refl

is_valid_utf8_iff_example :
    (is_valid_utf8 accents ≡ true) ↔ ((cs : List ℕ) × All IsScalar cs × (encode_text cs ≡ accents))
is_valid_utf8_iff_example = is_valid_utf8_iff accents (are_bytes-IsByte accents refl)

validate_text_iff_example :
    (validate_text yuta max_user_id_bytes true ≡ success tt)
    ↔ ((cs : List ℕ) × (encode_text cs ≡ yuta) × IsText max_user_id_bytes true cs)
validate_text_iff_example = validate_text_iff max_user_id_bytes true yuta yuta-bytes
