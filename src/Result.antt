-- ===== src/Result.antt =====
-- A step that may throw: what was thrown, or its value.
use borgo.Common.{◌≡◌, refl}

pub data Result {ℓ κ} (E : Type ℓ) (A : Type κ) : Type (ℓ ⊔ κ) where
  thrown : E → Result E A
  value : A → Result E A

module _ {ℓ κ μ} {E : Type ℓ} {A : Type κ} {B : Type μ} where
  infixl 5 ◌>>=◌
  abbrev pub ◌>>=◌ : Result E A → (A → Result E B) → Result E B
  thrown why >>= rest = thrown why
  value a >>= rest = rest a

  -- A sequence has a value only if its first step has one.
  pub >>=-value :
      (step : Result E A) (rest : A → Result E B) {b : B}
      → step >>= rest ≡ value b
      → (a : A) × (step ≡ value a) × (rest a ≡ value b)
  >>=-value (thrown why) rest e = cc
  >>=-value (value a) rest e = (a, refl, e)

pub value-eq {ℓ κ} :
    {E : Type ℓ} {A : Type κ} {x y : A} → ◌≡◌ {A = Result E A} (value x) (value y) → x ≡ y
value-eq h = cc
