-- ===== src/Maps.antt =====
-- `Map` with string keys, as the list of its entries in the order of their first `set`.
use borgo.Common.{
  ◌≡◌, refl, List, [], ◌∷◌, arith, if◌then◌else◌, Option, none, some, All, subst, sym, some-eq,
  Bool-cases, inl, inr,
}
use borgo.Text.{Text, ◌===◌, ===_iff}

abbrev pub Map {ℓ} : Type ℓ → Type ℓ
Map A = List (Text × A)

module _ {ℓ} {A : Type ℓ} where
  -- `map.get(key)`
  unfoldable pub lookup : Text → List (Text × A) → Option A
  lookup key [] = none
  lookup key ((k, v) ∷ rest) = if k === key then some v else lookup key rest

  -- `map.set(key, value)`
  unfoldable pub set : Text → A → List (Text × A) → List (Text × A)
  set key value [] = (key, value) ∷ []
  set key value ((k, v) ∷ rest) =
      if k === key then (k, value) ∷ rest else (k, v) ∷ set key value rest

  pub lookup-set :
      (key other : Text) (value : A) (entries : List (Text × A))
      → lookup other (set key value entries)
        ≡ (if key === other then some value else lookup other entries)
  unfolding lookup set
  lookup-set key other value [] = refl
  lookup-set key other value ((k, v) ∷ rest) =
      ground
        (arith, lookup-set key other value rest, ===_iff k key, ===_iff k other, ===_iff key other)

-- A property of every entry of a map.
module _ {ℓ κ} {A : Type ℓ} (P : Text → A → Type κ) where
  pub All-set :
      (key : Text) (value : A) (entries : List (Text × A))
      → P key value
      → All (λ (e : Text × A). P e.0 e.1) entries
      → All (λ (e : Text × A). P e.0 e.1) (set key value entries)
  unfolding set
  All-set key value [] p h = (p, tt)
  All-set key value ((k, v) ∷ rest) p (q, h) = elim (Bool-cases (k === key)) [
    | inl same ↦ rw same (subst (λ (x : Text). P x value) (sym ((===_iff k key).0 same)) p, h)
    | inr other ↦ rw other (q, All-set key value rest p h)
  ]

  pub All-lookup :
      (key : Text) (entries : List (Text × A)) {value : A}
      → All (λ (e : Text × A). P e.0 e.1) entries
      → lookup key entries ≡ some value
      → P key value
  unfolding lookup
  All-lookup key [] h e = absurd (nothing_there e)
    where
      nothing_there : {value : A} → ◌≡◌ {A = Option A} none (some value) → ⊥
      nothing_there same = cc
  All-lookup key ((k, v) ∷ rest) (q, h) e = elim (Bool-cases (k === key)) [
    | inl same ↦
        subst (λ (x : A). P key x) (some-eq (rw same at e))
          (subst (λ (x : Text). P x v) ((===_iff k key).0 same) q)
    | inr other ↦ All-lookup key rest h (rw other at e)
  ]
