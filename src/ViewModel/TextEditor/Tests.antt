-- ===== src/ViewModel/TextEditor/Tests.antt =====
-- A line of two characters, of which one has two bytes.
use lora_messenger.Common.{ℕ, ◌≡◌, ◌≢◌, ◌↔◌, none, All, refl, inl, List, [], ◌∷◌, arith}
use lora_messenger.Core.Text.Utf8.{encode_text, encode_utf8}
use lora_messenger.Words.Network.{IsByte}
use lora_messenger.ViewModel.TextEditor.Texts.{Fits, set_text-Shows}
use lora_messenger.ViewModel.TextEditor.{TextEditor, set_text}
use lora_messenger.ViewModel.TextEditor.Refines.{Shows}
use lora_messenger.ViewModel.TextEditor.Keys.{left, press, lefts, press-Shows}

abbrev line : TextEditor
line = record { maximum_bytes = 8; text = 97 ∷ 195 ∷ 169 ∷ []; cursor = 3 }

line-Shows : Shows line (97 ∷ 233 ∷ []) []
unfolding encode_text encode_utf8
line-Shows = record {
  scalars_before = (inl (omega arith), (inl (omega arith), tt));
  scalars_after = tt;
  text_same = refl;
  cursor_same = refl;
  size_le = omega arith;
}

press-Shows_example : Shows (press line left) (97 ∷ []) (233 ∷ [])
press-Shows_example =
    press-Shows line left (97 ∷ 233 ∷ []) [] (97 ∷ []) (233 ∷ []) line-Shows
      (lefts (97 ∷ []) [] 233)

line-bytes : All IsByte (97 ∷ 195 ∷ 169 ∷ [])
line-bytes = (omega arith, (omega arith, (omega arith, tt)))

set_text-Shows_example :
    ((set_text line (97 ∷ 195 ∷ 169 ∷ [])).0 ≡ none ↔ Fits line (97 ∷ 195 ∷ 169 ∷ []))
    × ((set_text line (97 ∷ 195 ∷ 169 ∷ [])).0 ≡ none
        → (cs : List ℕ) × (encode_text cs ≡ 97 ∷ 195 ∷ 169 ∷ [])
          × Shows (set_text line (97 ∷ 195 ∷ 169 ∷ [])).1 cs [])
    × ((set_text line (97 ∷ 195 ∷ 169 ∷ [])).0 ≢ none
        → (set_text line (97 ∷ 195 ∷ 169 ∷ [])).1 ≡ line)
set_text-Shows_example = set_text-Shows line (97 ∷ 195 ∷ 169 ∷ []) line-bytes
