-- ===== src/Canonical/Escapes.antt =====
-- The percent escapes of a canonical path.
use borgo.Common.{
  ℕ, ◌+◌, ◌*◌, ◌≡◌, refl, sym, ap, ap₂, ◌∙◌, and-eq-true_iff, ==_iff, true, false, [], ◌∷◌, ◌++◌,
  arith, ◌==◌, Bool-cases, inl, inr, append_assoc,
}
use borgo.Text.{Text, to_upper, is_hex, hex_value}
use borgo.Canonical.{is_unreserved, octet_value, escape_text, is_escape, decode_unreserved}

-- Every "%" is followed by two hexadecimal digits.
pub data IsWellFormed : Text → Type 0 where
  done : IsWellFormed []
  other : {c : ℕ} {s : Text} → (c == b'%') ≡ false → IsWellFormed s → IsWellFormed (c ∷ s)
  escape :
      {c a b : ℕ} {s : Text}
      → is_escape c a b ≡ true
      → IsWellFormed s
      → IsWellFormed (c ∷ a ∷ b ∷ s)

-- Every "%" starts an escape that the loop writes out as it stands.
pub data IsSettled : Text → Type 0 where
  done : IsSettled []
  other : {c : ℕ} {s : Text} → (c == b'%') ≡ false → IsSettled s → IsSettled (c ∷ s)
  escape :
      {c a b : ℕ} {s : Text}
      → is_escape c a b ≡ true
      → escape_text a b ≡ c ∷ a ∷ b ∷ []
      → IsSettled s
      → IsSettled (c ∷ a ∷ b ∷ s)

decode_unreserved-other :
    (c : ℕ) (s : Text) → (c == b'%') ≡ false → decode_unreserved (c ∷ s) ≡ c ∷ decode_unreserved s
unfolding decode_unreserved
decode_unreserved-other c [] e = refl
decode_unreserved-other c (a ∷ []) e = refl
decode_unreserved-other c (a ∷ b ∷ s) e = rw e refl

decode_unreserved-escape :
    (c a b : ℕ) (s : Text)
    → is_escape c a b ≡ true
    → decode_unreserved (c ∷ a ∷ b ∷ s) ≡ escape_text a b ++ decode_unreserved s
unfolding decode_unreserved
decode_unreserved-escape c a b s e = rw e refl

pub decode_unreserved-append :
    {s : Text} (t : Text)
    → IsWellFormed s
    → decode_unreserved (s ++ t) ≡ decode_unreserved s ++ decode_unreserved t
decode_unreserved-append t done = unfold decode_unreserved in refl
decode_unreserved-append t (other {c} {s} e w) =
    decode_unreserved-other c (s ++ t) e
    ∙ rw (decode_unreserved-other c s e, decode_unreserved-append t w) refl
decode_unreserved-append t (escape {c} {a} {b} {s} e w) =
    decode_unreserved-escape c a b (s ++ t) e
    ∙ rw (decode_unreserved-escape c a b s e, decode_unreserved-append t w) (rw append_assoc refl)

is_unreserved-ne : (v : ℕ) → is_unreserved v ≡ true → (v == b'%') ≡ false
unfolding is_unreserved
is_unreserved-ne v h = elim (Bool-cases (v == b'%')) [ inl e ↦ absurd (ground arith) | inr e ↦ e ]

hex_value-to_upper : (a : ℕ) → is_hex a ≡ true → hex_value (to_upper a) ≡ hex_value a
hex_value-to_upper a h = ground arith

to_upper-to_upper : (a : ℕ) → is_hex a ≡ true → to_upper (to_upper a) ≡ to_upper a
to_upper-to_upper a h = ground arith

is_hex-to_upper : (a : ℕ) → is_hex a ≡ true → is_hex (to_upper a) ≡ true
is_hex-to_upper a h = ground arith

pub is_hex-ne-slash : (a : ℕ) → is_hex a ≡ true → (a == b'/') ≡ false
is_hex-ne-slash a h = elim (Bool-cases (a == b'/')) [ inl e ↦ absurd (ground arith) | inr e ↦ e ]

pub escape_parts :
    (c a b : ℕ) → is_escape c a b ≡ true → (c ≡ b'%') × (is_hex a ≡ true) × (is_hex b ≡ true)
escape_parts c a b e =
    let (h, hb) = (and-eq-true_iff _ _).0 e in
    let (p, ha) = (and-eq-true_iff _ _).0 h in ((==_iff c b'%').0 p, ha, hb)

-- Both spellings of an unreserved character decode alike.
pub decode_unreserved-alias :
    (c a b : ℕ) (s : Text)
    → is_escape c a b ≡ true
    → is_unreserved (octet_value a b) ≡ true
    → decode_unreserved (c ∷ a ∷ b ∷ s) ≡ decode_unreserved (octet_value a b ∷ s)
unfolding escape_text
decode_unreserved-alias c a b s e u =
    let v = octet_value a b in
    decode_unreserved-escape c a b s e
    ∙ rw u (sym (decode_unreserved-other v s (is_unreserved-ne v u)))

escape_text-kept :
    (a b : ℕ)
    → is_unreserved (octet_value a b) ≡ false
    → escape_text a b ≡ b'%' ∷ to_upper a ∷ to_upper b ∷ []
unfolding escape_text
escape_text-kept a b u = rw u refl

escape_text-to_upper :
    (a b : ℕ)
    → is_hex a ≡ true
    → is_hex b ≡ true
    → is_unreserved (octet_value a b) ≡ false
    → escape_text (to_upper a) (to_upper b) ≡ b'%' ∷ to_upper a ∷ to_upper b ∷ []
escape_text-to_upper a b ha hb u =
    let same : octet_value (to_upper a) (to_upper b) ≡ octet_value a b =
      ap₂ (λ (x y : ℕ). 16 * x + y) (hex_value-to_upper a ha) (hex_value-to_upper b hb) in
    escape_text-kept (to_upper a) (to_upper b) (ap is_unreserved same ∙ u)
    ∙ ap₂ (λ (x y : ℕ). b'%' ∷ x ∷ y ∷ []) (to_upper-to_upper a ha) (to_upper-to_upper b hb)

escape_text-decoded :
    (a b : ℕ) → is_unreserved (octet_value a b) ≡ true → escape_text a b ≡ octet_value a b ∷ []
unfolding escape_text
escape_text-decoded a b u = rw u refl

escape_text-IsSettled :
    (c a b : ℕ) (s : Text) → is_escape c a b ≡ true → IsSettled s → IsSettled (escape_text a b ++ s)
escape_text-IsSettled c a b s e h =
    let (_, ha, hb) = escape_parts c a b e in
    elim (Bool-cases (is_unreserved (octet_value a b))) [
      | inl u ↦ rw (escape_text-decoded a b u) (other (is_unreserved-ne _ u) h)
      | inr u ↦ rw (escape_text-kept a b u) (
          escape (rw (is_hex-to_upper a ha, is_hex-to_upper b hb) refl)
            (escape_text-to_upper a b ha hb u) h)
    ]

pub decode_unreserved-IsSettled : {s : Text} → IsWellFormed s → IsSettled (decode_unreserved s)
decode_unreserved-IsSettled done = unfold decode_unreserved in done
decode_unreserved-IsSettled (other {c} {s} e w) =
    rw (decode_unreserved-other c s e) (other e (decode_unreserved-IsSettled w))
decode_unreserved-IsSettled (escape {c} {a} {b} {s} e w) =
    rw (decode_unreserved-escape c a b s e)
      (escape_text-IsSettled c a b (decode_unreserved s) e (decode_unreserved-IsSettled w))

pub decode_unreserved_of_IsSettled : {s : Text} → IsSettled s → decode_unreserved s ≡ s
decode_unreserved_of_IsSettled done = unfold decode_unreserved in refl
decode_unreserved_of_IsSettled (other {c} {s} e h) =
    decode_unreserved-other c s e ∙ ap (◌∷◌ c) (decode_unreserved_of_IsSettled h)
decode_unreserved_of_IsSettled (escape {c} {a} {b} {s} e f h) =
    decode_unreserved-escape c a b s e ∙ rw (f, decode_unreserved_of_IsSettled h) refl
