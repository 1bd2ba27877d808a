-- ===== src/Core/Text/Users.antt =====
-- What `UserId::create` and `PostBody::create` accept, by the code points of the text.
use lora_messenger.Common.{
  ℕ, ◌<◌, ◌≤◌, ◌≡◌, refl, ap₂, subst, ◌∙◌, sym, inl, inr, List, [], ◌∷◌, length, All, not, ◌||◌,
  ◌&&◌, some, arith, Bool, true, false, Option-cases, ◌↔◌,
}
use mathlib.Core.List.{foldl}
use lora_messenger.Words.Network.{IsByte}
use lora_messenger.Core.Result.{success}
use lora_messenger.Core.Text.{
  visit_utf8, is_whitespace, is_forbidden, Scan, scan, scan_start, validate_text, UserId,
  create_user_id, PostBody, create_post_body, max_user_id_bytes, max_post_body_bytes,
}
use lora_messenger.Core.Text.Utf8.{
  IsScalar, encode_text, encode_text-pos, visit_utf8-encode_text, visit_utf8-Visits,
}

-- The last code point, or `d`.
abbrev pub last_or : ℕ → List ℕ → ℕ
last_or d [] = d
last_or d (c ∷ cs) = last_or c cs

abbrev pub any_of : (ℕ → Bool) → List ℕ → Bool
any_of p [] = false
any_of p (c ∷ cs) = p c || any_of p cs

abbrev pub edge_is_whitespace : List ℕ → Bool
edge_is_whitespace [] = false
edge_is_whitespace (c ∷ cs) = is_whitespace c || is_whitespace (last_or c cs)

-- The texts that a user may enter, by their code points; `user_id` is set for names.
pub record IsText (maximum_bytes : ℕ) (user_id : Bool) (cs : List ℕ) : Type 0 where
  pub size_le : length (encode_text cs) ≤ maximum_bytes
  pub scalars : All IsScalar cs
  pub allowed : any_of (is_forbidden user_id) cs ≡ false
  pub visible : any_of (λ c. not (is_whitespace c)) cs ≡ true
  pub edges : (user_id && edge_is_whitespace cs) ≡ false

module _ (user_id : Bool) where
  forbidden-foldl :
      (s : Scan) (cs : List ℕ)
      → (foldl (scan user_id) s cs).forbidden ≡ (s.forbidden || any_of (is_forbidden user_id) cs)
  unfolding scan
  forbidden-foldl s [] = ground arith
  forbidden-foldl s (c ∷ cs) = ground (arith, forbidden-foldl (scan user_id s c) cs)

  visible-foldl :
      (s : Scan) (cs : List ℕ)
      → (foldl (scan user_id) s cs).has_non_whitespace
        ≡ (s.has_non_whitespace || any_of (λ c. not (is_whitespace c)) cs)
  unfolding scan
  visible-foldl s [] = ground arith
  visible-foldl s (c ∷ cs) = ground (arith, visible-foldl (scan user_id s c) cs)

  first-foldl :
      (s : Scan) (cs : List ℕ)
      → s.has_codepoint ≡ true
      → (foldl (scan user_id) s cs).first_codepoint ≡ s.first_codepoint
  unfolding scan
  first-foldl s [] h = refl
  first-foldl s (c ∷ cs) h = ground (arith, first-foldl (scan user_id s c) cs)

  last-foldl :
      (s : Scan) (cs : List ℕ)
      → (foldl (scan user_id) s cs).last_codepoint ≡ last_or s.last_codepoint cs
  unfolding scan
  last-foldl s [] = refl
  last-foldl s (c ∷ cs) = last-foldl (scan user_id s c) cs

  -- What the visitor has captured at the end of the text.
  scanned-fields :
      (c : ℕ) (cs : List ℕ)
      → let t = foldl (scan user_id) scan_start (c ∷ cs) in
        (t.forbidden ≡ any_of (is_forbidden user_id) (c ∷ cs))
        × (t.has_non_whitespace ≡ any_of (λ d. not (is_whitespace d)) (c ∷ cs))
        × (t.first_codepoint ≡ c)
        × (t.last_codepoint ≡ last_or c cs)
  scanned-fields c cs = (
    forbidden-foldl scan_start (c ∷ cs),
    visible-foldl scan_start (c ∷ cs),
    first-foldl (scan user_id scan_start c) cs (unfold scan in refl) ∙ (unfold scan in refl),
    last-foldl scan_start (c ∷ cs),
  )

abbrev ValidAs : List ℕ → ℕ → Bool → Scan → Type 0
ValidAs value maximum user_id t =
    (0 < length value)
    × (length value ≤ maximum)
    × (t.forbidden ≡ false)
    × (t.has_non_whitespace ≡ true)
    × ((user_id && (is_whitespace t.first_codepoint || is_whitespace t.last_codepoint)) ≡ false)

validate_text-ValidAs :
    (value : List ℕ) (maximum : ℕ) (user_id : Bool)
    → validate_text value maximum user_id ≡ success tt
    → (t : Scan) × (visit_utf8 (scan user_id) scan_start value ≡ some t)
      × ValidAs value maximum user_id t
unfolding validate_text
validate_text-ValidAs value maximum user_id e =
    elim (Option-cases (visit_utf8 (scan user_id) scan_start value)) [
      | inl n ↦ absurd (ground (arith, n))
      | inr (t, n) ↦ (t, n, ground arith)
    ]

ValidAs-validate_text :
    (value : List ℕ) (maximum : ℕ) (user_id : Bool) (t : Scan)
    → visit_utf8 (scan user_id) scan_start value ≡ some t
    → ValidAs value maximum user_id t
    → validate_text value maximum user_id ≡ success tt
unfolding validate_text
ValidAs-validate_text value maximum user_id t n v = ground arith

module _ (maximum : ℕ) (user_id : Bool) where
  ValidAs-IsText :
      (cs : List ℕ) (t : Scan)
      → All IsScalar cs
      → foldl (scan user_id) scan_start cs ≡ t
      → ValidAs (encode_text cs) maximum user_id t
      → IsText maximum user_id cs
  ValidAs-IsText [] t h e v = absurd (cc (e, v.3))
  ValidAs-IsText (c ∷ cs) t h e v =
      let (f, w, a, z) = scanned-fields user_id c cs in
      let (pos, le, allowed, visible, edges) =
        subst (ValidAs (encode_text (c ∷ cs)) maximum user_id) (sym e) v in
      record {
        size_le = le;
        scalars = h;
        allowed = sym f ∙ allowed;
        visible = sym w ∙ visible;
        edges =
            ap₂ (λ (x y : ℕ). user_id && (is_whitespace x || is_whitespace y)) (sym a) (sym z)
            ∙ edges;
      }

  IsText-ValidAs :
      (cs : List ℕ)
      → IsText maximum user_id cs
      → ValidAs (encode_text cs) maximum user_id (foldl (scan user_id) scan_start cs)
  IsText-ValidAs [] v = absurd (cc (v.visible))
  IsText-ValidAs (c ∷ cs) v =
      let (f, w, a, z) = scanned-fields user_id c cs in
      (
        encode_text-pos c cs,
        v.size_le,
        f ∙ v.allowed,
        w ∙ v.visible,
        ap₂ (λ (x y : ℕ). user_id && (is_whitespace x || is_whitespace y)) a z ∙ v.edges,
      )

  -- `validate_text` accepts exactly the UTF-8 encodings of at least one code point, of at most the
  -- given number of bytes, with no forbidden code point and a visible one, and for a name with no
  -- white space at either end.
  pub validate_text_iff :
      (value : List ℕ)
      → All IsByte value
      → (validate_text value maximum user_id ≡ success tt)
        ↔ ((cs : List ℕ) × (encode_text cs ≡ value) × IsText maximum user_id cs)
  validate_text_iff value w = (
    λ e.
        let (t, n, v) = validate_text-ValidAs value maximum user_id e in
        let (cs, h, p, q) = visit_utf8-Visits (scan user_id) scan_start value w n in
        (
          cs,
          p,
          ValidAs-IsText cs t h q (subst (λ (x : List ℕ). ValidAs x maximum user_id t) (sym p) v),
        ),
    λ r. rw (← r.1) (
        ValidAs-validate_text (encode_text r.0) maximum user_id _
          (visit_utf8-encode_text (scan user_id) scan_start r.0 r.2.scalars)
          (IsText-ValidAs r.0 r.2)),
  )

-- What a caller gets from the two constructors: the text as it was, if it was valid.
pub create_user_id-eq_success :
    (value : List ℕ) {u : UserId}
    → create_user_id value ≡ success u
    → (validate_text value max_user_id_bytes true ≡ success tt) × (u.value ≡ value)
unfolding create_user_id
create_user_id-eq_success value e = ground arith

pub create_post_body-eq_success :
    (value : List ℕ) {b : PostBody}
    → create_post_body value ≡ success b
    → (validate_text value max_post_body_bytes false ≡ success tt) × (b.value ≡ value)
unfolding create_post_body
create_post_body-eq_success value e = ground arith

pub create_user_id_again :
    (u : UserId)
    → validate_text u.value max_user_id_bytes true ≡ success tt
    → create_user_id u.value ≡ success u
unfolding create_user_id
create_user_id_again u e = ground arith

pub create_post_body_again :
    (b : PostBody)
    → validate_text b.value max_post_body_bytes false ≡ success tt
    → create_post_body b.value ≡ success b
unfolding create_post_body
create_post_body_again b e = ground arith

-- A valid text has at least one byte, and no more than it may.
pub validate_text-length :
    (value : List ℕ) (maximum : ℕ) (user_id : Bool)
    → validate_text value maximum user_id ≡ success tt
    → (0 < length value) × (length value ≤ maximum)
unfolding validate_text
validate_text-length value maximum user_id e = ground arith
