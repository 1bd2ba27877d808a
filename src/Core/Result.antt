-- ===== src/Core/Result.antt =====
-- `core::Result` of src/core/result.h, and the early returns that the code makes with it.
use lora_messenger.Common.{Bool, true, false, ◌≡◌, refl, ◌⊎◌, inl, inr, arith}

pub data Result {ℓ κ} (T : Type ℓ) (E : Type κ) : Type (ℓ ⊔ κ) where
  success : T → Result T E
  failure : E → Result T E

infixl 5 ◌>>=◌ ◌>>◌
abbrev pub ◌>>=◌ {ℓ κ ι} :
    {A : Type ℓ} {B : Type κ} {E : Type ι} → Result A E → (A → Result B E) → Result B E
success a >>= f = f a
failure e >>= f = failure e

abbrev pub ◌>>◌ {κ ι} : {B : Type κ} {E : Type ι} → Result (Unit {0}) E → Result B E → Result B E
m >> k = m >>= λ _. k

-- `if (test) return failure(e);`
abbrev pub reject {ι} : {E : Type ι} → Bool → E → Result (Unit {0}) E
reject true e = failure e
reject false e = success tt

-- A failure of a callee, reported as an error of the caller.
abbrev pub or_fail {ℓ ι κ} : {A : Type ℓ} {E : Type ι} {F : Type κ} → Result A E → F → Result A F
or_fail (success a) f = success a
or_fail (failure e) f = failure f

pub Result-cases {ℓ κ} :
    {A : Type ℓ} {E : Type κ} (r : Result A E)
    → ((a : A) × (r ≡ success a)) ⊎ ((e : E) × (r ≡ failure e))
Result-cases (success a) = inl (a, refl)
Result-cases (failure e) = inr (e, refl)

-- A chain of checks that succeeds passed its first check.
pub reject-eq_success {ι ℓ} :
    {E : Type ι} {A : Type ℓ} (b : Bool) (e : E) (k : Result A E) {a : A}
    → (reject b e >> k) ≡ success a
    → (b ≡ false) × (k ≡ success a)
reject-eq_success true e k h = cc
reject-eq_success false e k h = (refl, h)

pub >>=-eq_success {ι ℓ κ} :
    {E : Type ι} {A : Type ℓ} {B : Type κ} (m : Result A E) (k : A → Result B E) {b : B}
    → (m >>= k) ≡ success b
    → (a : A) × (m ≡ success a) × (k a ≡ success b)
>>=-eq_success (success a) k h = (a, refl, h)
>>=-eq_success (failure e) k h = cc

pub or_fail-eq_success {ι ℓ κ} :
    {A : Type ℓ} {E : Type ι} {F : Type κ} (m : Result A E) (f : F) {a : A}
    → or_fail m f ≡ success a
    → m ≡ success a
or_fail-eq_success (success b) f h = ground arith
or_fail-eq_success (failure e) f h = cc

pub success-injective {ℓ κ} :
    {A : Type ℓ} {E : Type κ} {a b : A} → ◌≡◌ {A = Result A E} (success a) (success b) → a ≡ b
success-injective h = cc
