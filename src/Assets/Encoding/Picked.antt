-- ===== src/Assets/Encoding/Picked.antt =====
-- The encoding that `pickEncoding` picks.
use borgo.Common.{
  ◌≡◌, refl, ap, subst, Bool, true, false, List, [], ◌∷◌, ◌++◌, Option, none, some, is_empty,
  Bool-cases, inl, inr, arith, some-eq, All,
}
use borgo.Text.{Text, listed, ===_iff}
use borgo.Maps.{Map}
use borgo.Server.Reach.{none-not-some}
use borgo.Assets.Encoding.{Weight, weights, is_accepted, first_accepted, pick_encoding, Takes}

-- The first encoding of a list that is accepted, and those before it are not.
pub record IsFirst (accepts : Text → Bool) (preferred : List Text) (e : Text) : Type 0 where
  pub before : List Text
  pub after : List Text
  pub splits : preferred ≡ before ++ (e ∷ after)
  pub refused : All (λ (f : Text). accepts f ≡ false) before
  pub taken : accepts e ≡ true

module _ (number : Text → Weight) where
  first_accepted-IsFirst :
      (q : Map Weight) (preferred : List Text) {e : Text}
      → first_accepted number q preferred ≡ some e
      → IsFirst (is_accepted number q) preferred e
  unfolding first_accepted
  first_accepted-IsFirst q [] h = absurd (none-not-some h)
  first_accepted-IsFirst q (f ∷ preferred) {e} h = elim (Bool-cases (is_accepted number q f)) [
    | inl taken ↦
        let same = some-eq (rw taken at h) in
        record {
          before = [];
          after = preferred;
          splits = ap (λ (g : Text). g ∷ preferred) same;
          refused = tt;
          taken = subst (λ (g : Text). is_accepted number q g ≡ true) same taken;
        }
    | inr refused ↦
        let found = first_accepted-IsFirst q preferred (rw refused at h) in
        record {
          before = f ∷ found.before;
          after = found.after;
          splits = ap (λ (rest : List Text). f ∷ rest) found.splits;
          refused = (refused, found.refused);
          taken = found.taken;
        }
  ]

  first_accepted-listed :
      (q : Map Weight) (preferred : List Text) {e : Text}
      → first_accepted number q preferred ≡ some e
      → listed e preferred ≡ true
  unfolding first_accepted listed
  first_accepted-listed q [] h = absurd (none-not-some h)
  first_accepted-listed q (f ∷ preferred) {e} h = elim (Bool-cases (is_accepted number q f)) [
    | inl taken ↦ let same = some-eq (rw taken at h) in ground (arith, ===_iff e f)
    | inr refused ↦ ground (arith, first_accepted-listed q preferred (rw refused at h))
  ]

  pub pick_encoding-listed :
      (accepted : Option Text) (preferred : List Text) {e : Text}
      → pick_encoding number accepted preferred ≡ some e
      → listed e preferred ≡ true
  unfolding pick_encoding
  pick_encoding-listed none preferred h = absurd (none-not-some h)
  pick_encoding-listed (some header) preferred h = elim (Bool-cases (is_empty header)) [
    | inl blank ↦ absurd (none-not-some (rw blank at h))
    | inr given ↦ first_accepted-listed (weights number header) preferred (rw given at h)
  ]

  pub pick_encoding-Takes :
      (accepted : Option Text) (preferred : List Text) {e : Text}
      → pick_encoding number accepted preferred ≡ some e
      → Takes number accepted e
  unfolding pick_encoding Takes
  pick_encoding-Takes none preferred h = absurd (none-not-some h)
  pick_encoding-Takes (some header) preferred h = elim (Bool-cases (is_empty header)) [
    | inl blank ↦ absurd (none-not-some (rw blank at h))
    | inr given ↦ (
      header,
      refl,
      (first_accepted-IsFirst (weights number header) preferred (rw given at h)).taken,
    )
  ]
