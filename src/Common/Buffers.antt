-- ===== src/Common/Buffers.antt =====
-- Buffers element by element: reading behind a copy, and equality from equal elements.
use Prim.Native.Nat.{ℕ, zero, suc, ◌+◌, ◌≤◌, ◌<◌}
use mathlib.Core.Path.{◌≡◌, refl, ap, ap₂}
use mathlib.Core.Logic.{◌⊎◌, inl, inr}
use mathlib.Core.List.{List, [], ◌∷◌}
use native.Mathlib.Omega.{arith}
use lora_messenger.Common.Lists.{length, get_or, take, drop, overwrite, write_at, set}

module _ {ℓ} {A : Type ℓ} where
  length-overwrite : (xs ys : List A) → length (overwrite xs ys) ≡ length xs
  length-overwrite [] [] = refl
  length-overwrite [] (y ∷ ys) = refl
  length-overwrite (x ∷ xs) [] = refl
  length-overwrite (x ∷ xs) (y ∷ ys) = ap suc (length-overwrite xs ys)

  pub length-write_at : (xs : List A) (n : ℕ) (ys : List A) → length (write_at xs n ys) ≡ length xs
  length-write_at xs zero ys = length-overwrite xs ys
  length-write_at [] (suc n) ys = refl
  length-write_at (x ∷ xs) (suc n) ys = ap suc (length-write_at xs n ys)

  get_or-overwrite_in :
      (xs ys : List A) (k : ℕ) (d : A)
      → k < length ys
      → length ys ≤ length xs
      → get_or (overwrite xs ys) k d ≡ get_or ys k d
  get_or-overwrite_in xs [] k d h l = absurd (omega arith)
  get_or-overwrite_in [] (y ∷ ys) k d h l = absurd (omega arith)
  get_or-overwrite_in (x ∷ xs) (y ∷ ys) zero d h l = refl
  get_or-overwrite_in (x ∷ xs) (y ∷ ys) (suc k) d h l =
      get_or-overwrite_in xs ys k d (omega arith) (omega arith)

  get_or-overwrite_out :
      (xs ys : List A) (k : ℕ) (d : A)
      → length ys ≤ k
      → get_or (overwrite xs ys) k d ≡ get_or xs k d
  get_or-overwrite_out xs [] k d h = refl
  get_or-overwrite_out [] (y ∷ ys) k d h = refl
  get_or-overwrite_out (x ∷ xs) (y ∷ ys) zero d h = absurd (omega arith)
  get_or-overwrite_out (x ∷ xs) (y ∷ ys) (suc k) d h = get_or-overwrite_out xs ys k d (omega arith)

  -- What a copy wrote is read behind its offset.
  pub get_or-write_at_in :
      (xs : List A) (n : ℕ) (ys : List A) (k : ℕ) (d : A)
      → k < length ys
      → n + length ys ≤ length xs
      → get_or (write_at xs n ys) (n + k) d ≡ get_or ys k d
  get_or-write_at_in xs zero ys k d h l =
      let e : zero + k ≡ k = omega arith in rw e (get_or-overwrite_in xs ys k d h (omega arith))
  get_or-write_at_in [] (suc n) ys k d h l = absurd (omega arith)
  get_or-write_at_in (x ∷ xs) (suc n) ys k d h l =
      let e : suc n + k ≡ suc (n + k) = omega arith in
      rw e (get_or-write_at_in xs n ys k d h (omega arith))

  -- A copy leaves what stands before and behind it.
  pub get_or-write_at_out :
      (xs : List A) (n : ℕ) (ys : List A) (k : ℕ) (d : A)
      → (k < n) ⊎ (n + length ys ≤ k)
      → get_or (write_at xs n ys) k d ≡ get_or xs k d
  get_or-write_at_out xs zero ys k d (inl h) = absurd (omega arith)
  get_or-write_at_out xs zero ys k d (inr h) = get_or-overwrite_out xs ys k d (omega arith)
  get_or-write_at_out [] (suc n) ys k d h = refl
  get_or-write_at_out (x ∷ xs) (suc n) ys zero d h = refl
  get_or-write_at_out (x ∷ xs) (suc n) ys (suc k) d (inl h) =
      get_or-write_at_out xs n ys k d (inl (omega arith))
  get_or-write_at_out (x ∷ xs) (suc n) ys (suc k) d (inr h) =
      get_or-write_at_out xs n ys k d (inr (omega arith))

  pub get_or-take :
      (n : ℕ) (xs : List A) (k : ℕ) (d : A) → k < n → get_or (take n xs) k d ≡ get_or xs k d
  get_or-take zero xs k d h = absurd (omega arith)
  get_or-take (suc n) [] k d h = refl
  get_or-take (suc n) (x ∷ xs) zero d h = refl
  get_or-take (suc n) (x ∷ xs) (suc k) d h = get_or-take n xs k d (omega arith)

  pub get_or-drop :
      (n : ℕ) (xs : List A) (k : ℕ) (d : A) → get_or (drop n xs) k d ≡ get_or xs (n + k) d
  get_or-drop zero xs k d = let e : zero + k ≡ k = omega arith in rw e refl
  get_or-drop (suc n) [] k d = refl
  get_or-drop (suc n) (x ∷ xs) k d =
      let e : suc n + k ≡ suc (n + k) = omega arith in rw e (get_or-drop n xs k d)

  -- Lists of one length with equal elements are equal.
  pub list_ext :
      (xs ys : List A) (d : A)
      → length xs ≡ length ys
      → ((k : ℕ) → k < length xs → get_or xs k d ≡ get_or ys k d)
      → xs ≡ ys
  list_ext [] [] d e h = refl
  list_ext [] (y ∷ ys) d e h = absurd (omega arith)
  list_ext (x ∷ xs) [] d e h = absurd (omega arith)
  list_ext (x ∷ xs) (y ∷ ys) d e h =
      ap₂ ◌∷◌ (h 0 (omega arith)) (list_ext xs ys d (omega arith) (λ k l. h (suc k) (omega arith)))

  pub get_or-set_same :
      (xs : List A) (i : ℕ) (v d : A) → i < length xs → get_or (set xs i v) i d ≡ v
  get_or-set_same [] i v d h = absurd (omega arith)
  get_or-set_same (x ∷ xs) zero v d h = refl
  get_or-set_same (x ∷ xs) (suc i) v d h = get_or-set_same xs i v d (omega arith)

  pub get_or-set_other :
      (xs : List A) (i j : ℕ) (v d : A)
      → (i < j) ⊎ (j < i)
      → get_or (set xs i v) j d ≡ get_or xs j d
  get_or-set_other [] i j v d h = refl
  get_or-set_other (x ∷ xs) zero zero v d (inl h) = absurd (omega arith)
  get_or-set_other (x ∷ xs) zero zero v d (inr h) = absurd (omega arith)
  get_or-set_other (x ∷ xs) zero (suc j) v d h = refl
  get_or-set_other (x ∷ xs) (suc i) zero v d h = refl
  get_or-set_other (x ∷ xs) (suc i) (suc j) v d (inl h) =
      get_or-set_other xs i j v d (inl (omega arith))
  get_or-set_other (x ∷ xs) (suc i) (suc j) v d (inr h) =
      get_or-set_other xs i j v d (inr (omega arith))
