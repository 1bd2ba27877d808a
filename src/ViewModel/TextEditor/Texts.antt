-- ===== src/ViewModel/TextEditor/Texts.antt =====
-- Whole texts that are put into the editor.
use lora_messenger.Common.{
  append-nil, ℕ, ◌≤◌, ◌≡◌, ◌≢◌, ◌↔◌, refl, sym, ap, ◌∙◌, Bool-cases, inl, inr, none, List, [],
  length, ltb, All, arith,
}
use lora_messenger.Words.Network.{IsByte}
use lora_messenger.Core.Text.{is_valid_utf8}
use lora_messenger.Core.Text.Utf8.{IsScalar, encode_text, is_valid_utf8_iff}
use lora_messenger.ViewModel.TextEditor.{TextEditor, set_text}
use lora_messenger.ViewModel.TextEditor.Refines.{Shows}

-- What `set_text` may take: the encoding of some Unicode scalar values, not longer than the editor allows.
abbrev pub Fits : TextEditor → List ℕ → Type 0
Fits e value =
    ((cs : List ℕ) × All IsScalar cs × (encode_text cs ≡ value)) × (length value ≤ e.maximum_bytes)

-- `set_text` takes a string of bytes exactly if it is the UTF-8 encoding of some Unicode scalar values
-- and not longer than the editor allows. Then the editor shows the code points that it encodes, with the
-- cursor at their end; otherwise nothing changes.
pub set_text-Shows :
    (e : TextEditor) (value : List ℕ)
    → All IsByte value
    → ((set_text e value).0 ≡ none ↔ Fits e value)
      × ((set_text e value).0 ≡ none
          → (cs : List ℕ) × (encode_text cs ≡ value) × Shows (set_text e value).1 cs [])
      × ((set_text e value).0 ≢ none → (set_text e value).1 ≡ e)
unfolding set_text encode_text
set_text-Shows e value bytes =
    let utf8 = is_valid_utf8_iff value bytes in
    elim (Bool-cases (is_valid_utf8 value)) [
      | inr bad ↦ rw bad (
        ((λ ok. absurd (cc ok)), λ fits. absurd (cc (bad, utf8.1 fits.0))),
        (λ ok. absurd (cc ok)),
        λ _. refl,
      )
      | inl good ↦ elim (Bool-cases (ltb e.maximum_bytes (length value))) [
        | inl long ↦
            rw (good, long)
              (
                ((λ ok. absurd (cc ok)), λ fits. absurd (ground (arith, long, fits.1))),
                (λ ok. absurd (cc ok)),
                λ _. refl,
              )
        | inr short ↦
            rw (good, short)
              (
                ((λ _. (utf8.0 good, ground (arith, short))), λ _. refl),
                (λ _.
                    let (cs, scalars, same) = utf8.0 good in
                    (
                      cs,
                      same,
                      record {
                        scalars_before = scalars;
                        scalars_after = tt;
                        text_same = sym same ∙ sym (append-nil (encode_text cs));
                        cursor_same = sym (ap length same);
                        size_le = ground (arith, short);
                      },
                    )),
                λ no. absurd (no refl),
              )
      ]
    ]
