-- ===== src/ViewModel/TextEditor/Boundaries.antt =====
-- The boundaries of code points in encoded text.
use lora_messenger.Common.{
  ℕ, zero, suc, ◌+◌, ◌-◌, ◌/◌, ◌%◌, ◌<◌, ◌≤◌, ◌≡◌, refl, sym, ap, ◌∙◌, true, false, Bool-cases, inl,
  inr, List, [], ◌∷◌, ◌++◌, length, drop, get_or, ltb, nat_eq, All, arith,
}
use lora_messenger.Core.Text.Utf8.{IsScalar, encode_utf8, encode_text}
use lora_messenger.ViewModel.TextEditor.{
  is_continuation, encoded_bytes, previous_loop, previous_boundary, next_loop, next_boundary,
}

-- One leading byte, and continuations behind it.
pub record IsCharacter (bytes : List ℕ) : Type 0 where
  pub first : ℕ
  pub rest : List ℕ
  pub split : bytes ≡ first ∷ rest
  pub leads : is_continuation first ≡ false
  pub continues : All (λ b. is_continuation b ≡ true) rest

pub encode_utf8-IsCharacter : (c : ℕ) → IsScalar c → IsCharacter (encode_utf8 c)
unfolding encode_utf8 is_continuation
encode_utf8-IsCharacter c h = elim (Bool-cases (ltb c 0x80)) [
  | inl one ↦
      rw one
        (record { first = c; rest = []; split = refl; leads = ground (arith, one); continues = tt })
  | inr more ↦ elim (Bool-cases (ltb c 0x800)) [
    | inl two ↦
        rw (more, two)
          (record {
            first = 0xc0 + c / 64;
            rest = (0x80 + c % 64) ∷ [];
            split = refl;
            leads = ground (arith, more, two);
            continues = (ground arith, tt);
          })
    | inr other ↦ elim (Bool-cases (ltb c 0x10000)) [
      | inl three ↦
          rw (more, other, three)
            (record {
              first = 0xe0 + c / 4096;
              rest = (0x80 + c / 64 % 64) ∷ (0x80 + c % 64) ∷ [];
              split = refl;
              leads = ground (arith, other, three);
              continues = (ground arith, (ground arith, tt));
            })
      | inr four ↦
          rw (more, other, four)
            (record {
              first = 0xf0 + c / 262144;
              rest = (0x80 + c / 4096 % 64) ∷ (0x80 + c / 64 % 64) ∷ (0x80 + c % 64) ∷ [];
              split = refl;
              leads = ground (arith, h, four);
              continues = (ground arith, (ground arith, (ground arith, tt)));
            })
    ]
  ]
]

-- The editor's own encoder writes what the scanner reads, and nothing for what is no scalar value.
pub encoded_bytes-encode_utf8 : (c : ℕ) → IsScalar c → encoded_bytes c ≡ encode_utf8 c
unfolding encoded_bytes encode_utf8
encoded_bytes-encode_utf8 c h = ground (arith, h)

get_or-append : (xs ys : List ℕ) (k : ℕ) → get_or (xs ++ ys) (length xs + k) 0 ≡ get_or ys k 0
get_or-append [] ys k = let e : 0 + k ≡ k = omega arith in rw e refl
get_or-append (x ∷ xs) ys k =
    let e : suc (length xs) + k ≡ suc (length xs + k) = omega arith in rw e (get_or-append xs ys k)

continues-get_or :
    (rest after : List ℕ) (k : ℕ)
    → All (λ b. is_continuation b ≡ true) rest
    → k < length rest
    → is_continuation (get_or (rest ++ after) k 0) ≡ true
continues-get_or [] after k h l = absurd (omega arith)
continues-get_or (b ∷ rest) after zero h l = h.0
continues-get_or (b ∷ rest) after (suc k) h l = continues-get_or rest after k h.1 (omega arith)

previous_loop-stop :
    (text : List ℕ) (offset : ℕ)
    → is_continuation (get_or text offset 0) ≡ false
    → previous_loop text offset ≡ offset
unfolding previous_loop
previous_loop-stop text zero h = refl
previous_loop-stop text (suc offset) h = rw h refl

previous_loop-back :
    (text : List ℕ) (offset : ℕ)
    → is_continuation (get_or text (suc offset) 0) ≡ true
    → previous_loop text (suc offset) ≡ previous_loop text offset
unfolding previous_loop
previous_loop-back text offset h = rw h refl

module _ (before : List ℕ) (first : ℕ) (rest after : List ℕ) (leads : is_continuation first ≡ false)
    (continues : All (λ b. is_continuation b ≡ true) rest) where
  abbrev text : List ℕ
  text = before ++ (first ∷ (rest ++ after))

  previous_loop-character :
      (k : ℕ) → k ≤ length rest → previous_loop text (length before + k) ≡ length before
  previous_loop-character zero h =
      let e : length before + 0 ≡ length before = omega arith in
      previous_loop-stop text (length before + 0)
        (ap is_continuation (get_or-append before (first ∷ (rest ++ after)) 0) ∙ leads)
      ∙ e
  previous_loop-character (suc k) h =
      let e : length before + suc k ≡ suc (length before + k) = omega arith in
      ap (previous_loop text) e
      ∙ previous_loop-back text (length before + k) (
          ap (λ (n : ℕ). is_continuation (get_or text n 0)) (sym e)
          ∙ ap is_continuation (get_or-append before (first ∷ (rest ++ after)) (suc k))
          ∙ continues-get_or rest after k continues (omega arith))
      ∙ previous_loop-character k (omega arith)

  -- From behind a character, the boundary before is in front of it.
  pub previous_boundary-character :
      previous_boundary text (length before + suc (length rest)) ≡ length before
  unfolding previous_boundary
  previous_boundary-character =
      let e : length before + suc (length rest) - 1 ≡ length before + length rest = omega arith in
      ap (previous_loop text) e ∙ previous_loop-character (length rest) (omega arith)

next_loop-continues :
    (rest after : List ℕ) (offset : ℕ)
    → All (λ b. is_continuation b ≡ true) rest
    → ((n : ℕ) → next_loop after n ≡ n)
    → next_loop (rest ++ after) offset ≡ offset + length rest
unfolding next_loop
next_loop-continues [] after offset h stop = stop offset ∙ omega arith
next_loop-continues (b ∷ rest) after offset h stop =
    rw h.0 (next_loop-continues rest after (offset + 1) h.1 stop ∙ omega arith)

drop-more :
    (before : List ℕ) (first : ℕ) (more : List ℕ)
    → drop (length before + 1) (before ++ (first ∷ more)) ≡ more
drop-more [] first more = refl
drop-more (b ∷ before) first more =
    let e : suc (length before) + 1 ≡ suc (length before + 1) = omega arith in
    rw e (drop-more before first more)

-- From in front of a character, the next boundary is behind it.
pub next_boundary-character :
    (before : List ℕ) (first : ℕ) (rest after : List ℕ)
    → All (λ b. is_continuation b ≡ true) rest
    → ((n : ℕ) → next_loop after n ≡ n)
    → next_boundary (before ++ (first ∷ (rest ++ after))) (length before)
      ≡ length before + suc (length rest)
unfolding next_boundary
next_boundary-character before first rest after continues stop =
    ap (λ (xs : List ℕ). next_loop xs (length before + 1)) (drop-more before first (rest ++ after))
    ∙ next_loop-continues rest after (length before + 1) continues stop
    ∙ omega arith

-- Encoded text does not begin in the middle of a character.
pub next_loop-encode_text :
    (cs : List ℕ) → All IsScalar cs → (n : ℕ) → next_loop (encode_text cs) n ≡ n
unfolding encode_text next_loop
next_loop-encode_text [] h n = refl
next_loop-encode_text (c ∷ cs) h n =
    let v = encode_utf8-IsCharacter c h.0 in
    ap (λ (bytes : List ℕ). next_loop (bytes ++ encode_text cs) n) v.split
    ∙ first_stops v.first (v.rest ++ encode_text cs) n v.leads
  where
    first_stops :
        (first : ℕ) (more : List ℕ) (n : ℕ)
        → is_continuation first ≡ false
        → next_loop (first ∷ more) n ≡ n
    first_stops first more n e = rw e refl
