-- ===== src/Core/Text/Utf8.antt =====
-- `visit_utf8` against the encoding of the Unicode standard.
use lora_messenger.Common.{
  ℕ, zero, suc, ◌+◌, ◌/◌, ◌%◌, ◌<◌, ◌≤◌, ◌≡◌, refl, ap, ◌∙◌, sym, ◌⊎◌, inl, inr, List, [], ◌∷◌,
  ◌++◌, length, length-append, All, ltb, if◌then◌else◌, none, some, arith, Bool-cases, tests,
  Option-cases, All-suffix, some-injective, subst, ◌↔◌, true, false,
}
use mathlib.Core.List.{foldl}
use lora_messenger.Words.Network.{IsByte}
use lora_messenger.Core.Text.{next_codepoint, visit_loop, visit_utf8, is_valid_utf8, ignore}

-- A Unicode scalar value: a code point that is no surrogate.
abbrev pub IsScalar : ℕ → Type 0
IsScalar c = (c < 0xd800) ⊎ ((0xe000 ≤ c) × (c < 0x110000))

-- The bytes of a scalar value.
unfoldable pub encode_utf8 : ℕ → List ℕ
encode_utf8 c =
    if ltb c 0x80
    then c ∷ []
    else if ltb c 0x800
    then (0xc0 + c / 64) ∷ (0x80 + c % 64) ∷ []
    else if ltb c 0x10000
    then (0xe0 + c / 4096) ∷ (0x80 + c / 64 % 64) ∷ (0x80 + c % 64) ∷ []
    else (0xf0 + c / 262144) ∷ (0x80 + c / 4096 % 64) ∷ (0x80 + c / 64 % 64) ∷ (0x80 + c % 64) ∷ []

unfoldable pub encode_text : List ℕ → List ℕ
encode_text [] = []
encode_text (c ∷ cs) = encode_utf8 c ++ encode_text cs

next_one : (c : ℕ) (rest : List ℕ) → c < 0x80 → next_codepoint c rest ≡ some (c, rest)
unfolding next_codepoint
next_one c rest h = ground arith

next_two :
    (c : ℕ) (rest : List ℕ)
    → 0x80 ≤ c
    → c < 0x800
    → next_codepoint (0xc0 + c / 64) ((0x80 + c % 64) ∷ rest) ≡ some (c, rest)
unfolding next_codepoint
next_two c rest h k = ground arith

next_three :
    (c : ℕ) (rest : List ℕ)
    → 0x800 ≤ c
    → c < 0x10000
    → IsScalar c
    → next_codepoint (0xe0 + c / 4096) ((0x80 + c / 64 % 64) ∷ (0x80 + c % 64) ∷ rest)
      ≡ some (c, rest)
unfolding next_codepoint
next_three c rest h k s = ground arith

next_four :
    (c : ℕ) (rest : List ℕ)
    → 0x10000 ≤ c
    → c < 0x110000
    → next_codepoint
        (0xf0 + c / 262144)
        ((0x80 + c / 4096 % 64) ∷ (0x80 + c / 64 % 64) ∷ (0x80 + c % 64) ∷ rest)
      ≡ some (c, rest)
unfolding next_codepoint
next_four c rest h k = ground arith

abbrev Next : ℕ → List ℕ → ℕ → List ℕ → Type 0
Next b rest c rest' = IsScalar c × (encode_utf8 c ++ rest' ≡ b ∷ rest)

Next-sound0 :
    (b : ℕ) {c : ℕ} {rest' : List ℕ}
    → b < 256
    → next_codepoint b [] ≡ some (c, rest')
    → Next b [] c rest'
unfolding next_codepoint encode_utf8
Next-sound0 b h e = ground arith

Next-sound1 :
    (b b1 : ℕ) {c : ℕ} {rest' : List ℕ}
    → b < 256
    → b1 < 256
    → next_codepoint b (b1 ∷ []) ≡ some (c, rest')
    → Next b (b1 ∷ []) c rest'
unfolding next_codepoint encode_utf8
Next-sound1 b b1 h e = ground arith

Next-sound2 :
    (b b1 b2 : ℕ) {c : ℕ} {rest' : List ℕ}
    → b < 256
    → b1 < 256
    → b2 < 256
    → next_codepoint b (b1 ∷ b2 ∷ []) ≡ some (c, rest')
    → Next b (b1 ∷ b2 ∷ []) c rest'
unfolding next_codepoint encode_utf8
Next-sound2 b b1 b2 h k l e = ground arith

Next-sound3 :
    (b b1 b2 b3 : ℕ) (r : List ℕ) {c : ℕ} {rest' : List ℕ}
    → b < 256
    → b1 < 256
    → b2 < 256
    → b3 < 256
    → next_codepoint b (b1 ∷ b2 ∷ b3 ∷ r) ≡ some (c, rest')
    → Next b (b1 ∷ b2 ∷ b3 ∷ r) c rest'
unfolding next_codepoint encode_utf8
Next-sound3 b b1 b2 b3 r h k l m e = ground arith

Next-sound :
    (b : ℕ) (rest : List ℕ) {c : ℕ} {rest' : List ℕ}
    → b < 256
    → All IsByte rest
    → next_codepoint b rest ≡ some (c, rest')
    → Next b rest c rest'
Next-sound b [] h w e = Next-sound0 b h e
Next-sound b (b1 ∷ []) h w e = Next-sound1 b b1 h w.0 e
Next-sound b (b1 ∷ b2 ∷ []) h w e = Next-sound2 b b1 b2 h w.0 w.1.0 e
Next-sound b (b1 ∷ b2 ∷ b3 ∷ r) h w e = Next-sound3 b b1 b2 b3 r h w.0 w.1.0 w.1.1.0 e

encode_text_cons : (c : ℕ) (cs : List ℕ) → encode_text (c ∷ cs) ≡ encode_utf8 c ++ encode_text cs
unfolding encode_text
encode_text_cons c cs = refl

length-encode_utf8 : (c : ℕ) → 0 < length (encode_utf8 c)
unfolding encode_utf8
length-encode_utf8 c = ground arith

pub encode_text-pos : (c : ℕ) (cs : List ℕ) → 0 < length (encode_text (c ∷ cs))
encode_text-pos c cs =
    rw (encode_text_cons c cs)
      (omega (arith, length-encode_utf8 c, length-append (encode_utf8 c) (encode_text cs)))

module _ {ℓ} {S : Type ℓ} (visitor : S → ℕ → S) where
  visit_loop_nil : (fuel : ℕ) (s : S) → visit_loop visitor fuel s [] ≡ some s
  unfolding visit_loop
  visit_loop_nil zero s = refl
  visit_loop_nil (suc fuel) s = refl

  -- One round of the loop takes one encoded scalar value.
  visit_loop_step :
      (fuel c : ℕ) (s : S) (rest : List ℕ)
      → IsScalar c
      → visit_loop visitor (suc fuel) s (encode_utf8 c ++ rest)
        ≡ visit_loop visitor fuel (visitor s c) rest
  unfolding visit_loop encode_utf8
  visit_loop_step fuel c s rest h = elim (Bool-cases (ltb c 0x80)) [
    | inl one ↦ rw one (rw (next_one c rest (omega tests), visit_loop))
    | inr not_one ↦ rw not_one (elim (Bool-cases (ltb c 0x800)) [
      | inl two ↦ rw two (rw (next_two c rest (omega tests) (omega tests), visit_loop))
      | inr not_two ↦ rw not_two (elim (Bool-cases (ltb c 0x10000)) [
        | inl three ↦ rw three (rw (next_three c rest (omega tests) (omega tests) h, visit_loop))
        | inr not_three ↦
            rw not_three (rw (next_four c rest (omega tests) (omega tests), visit_loop))
      ])
    ])
  ]

  visit_loop-encode_text :
      (cs : List ℕ) (fuel : ℕ) (s : S)
      → All IsScalar cs
      → length (encode_text cs) ≤ fuel
      → visit_loop visitor fuel s (encode_text cs) ≡ some (foldl visitor s cs)
  unfolding encode_text
  visit_loop-encode_text [] fuel s h k = visit_loop_nil fuel s
  visit_loop-encode_text (c ∷ cs) zero s h k =
      absurd (omega (arith, length-encode_utf8 c, length-append (encode_utf8 c) (encode_text cs)))
  visit_loop-encode_text (c ∷ cs) (suc fuel) s h k =
      visit_loop_step fuel c s (encode_text cs) h.0
      ∙ visit_loop-encode_text cs fuel (visitor s c) h.1
          (omega (arith, length-encode_utf8 c, length-append (encode_utf8 c) (encode_text cs)))

  -- The encoding of any scalar values is accepted, and the visitor is called with them in order.
  pub visit_utf8-encode_text :
      (s : S) (cs : List ℕ)
      → All IsScalar cs
      → visit_utf8 visitor s (encode_text cs) ≡ some (foldl visitor s cs)
  unfolding visit_utf8
  visit_utf8-encode_text s cs h =
      visit_loop-encode_text cs (length (encode_text cs)) s h (omega arith)

  abbrev pub Visits : S → List ℕ → S → Type ℓ
  Visits s value t =
      (cs : List ℕ) × All IsScalar cs × (encode_text cs ≡ value) × (foldl visitor s cs ≡ t)

  visit_loop-Visits :
      (fuel : ℕ) (s : S) (value : List ℕ) {t : S}
      → All IsByte value
      → visit_loop visitor fuel s value ≡ some t
      → Visits s value t
  visit_loop-Visits fuel s [] {t} w e =
      ([], tt, unfold encode_text in refl, some-injective _ _ (sym (visit_loop_nil fuel s) ∙ e))
  visit_loop-Visits zero s (b ∷ rest) w e = unfold visit_loop in cc
  visit_loop-Visits (suc fuel) s (b ∷ rest) {t} w e = elim (Option-cases (next_codepoint b rest)) [
    | inl n ↦
        let f : visit_loop visitor (suc fuel) s (b ∷ rest) ≡ none =
          unfold visit_loop in rw (n, visit_loop) in
        cc (e, f)
    | inr ((c, rest'), n) ↦
        let f : visit_loop visitor (suc fuel) s (b ∷ rest)
            ≡ visit_loop visitor fuel (visitor s c) rest' =
          unfold visit_loop in rw (n, visit_loop) in
        let (scalar, whole) = Next-sound b rest w.0 w.1 n in
        let behind = All-suffix IsByte (encode_utf8 c) rest' (subst (All IsByte) (sym whole) w) in
        let (cs, scalars, text, end) =
          visit_loop-Visits fuel (visitor s c) rest' behind (sym f ∙ e) in
        (
          c ∷ cs,
          (scalar, scalars),
          encode_text_cons c cs ∙ ap (◌++◌ (encode_utf8 c)) text ∙ whole,
          end,
        )
  ]

  -- A text that is accepted is the encoding of scalar values, with which the visitor was called in
  -- their order.
  pub visit_utf8-Visits :
      (s : S) (value : List ℕ) {t : S}
      → All IsByte value
      → visit_utf8 visitor s value ≡ some t
      → Visits s value t
  unfolding visit_utf8
  visit_utf8-Visits s value w e = visit_loop-Visits (length value) s value w e

-- `is_valid_utf8` accepts exactly the encodings of lists of Unicode scalar values: no surrogate, no
-- overlong form, nothing above U+10FFFF, and no other byte sequence.
pub is_valid_utf8_iff :
    (value : List ℕ)
    → All IsByte value
    → (is_valid_utf8 value ≡ true) ↔ ((cs : List ℕ) × All IsScalar cs × (encode_text cs ≡ value))
unfolding is_valid_utf8
is_valid_utf8_iff value w = (
  λ e. elim (Option-cases (visit_utf8 ignore tt value)) [
    | inl n ↦ let f : is_valid_utf8 value ≡ false = rw (n, is_valid_utf8) in cc (e, f)
    | inr (t, n) ↦ let (cs, h, p, _) = visit_utf8-Visits ignore tt value w n in (cs, h, p)
  ],
  λ v. rw (← v.2) (rw (visit_utf8-encode_text ignore tt v.0 v.1, is_valid_utf8)),
)
