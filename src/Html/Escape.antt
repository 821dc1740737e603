-- ===== src/Html/Escape.antt =====
-- Escaping a text for html, and reading it back.
use borgo.Common.{
  ℕ, ◌≡◌, refl, sym, ap, ◌∙◌, Bool, true, false, [], ◌∷◌, ◌++◌, ◌==◌, if◌then◌else◌, Bool-cases,
  inl, inr, append_assoc, ==_iff, arith, All, All-append, subst, ◌||◌,
}
use borgo.Maps.{lookup}
use borgo.Text.{Text, codes, ◌===◌, has_prefix, replace_all, replace_from}
use borgo.Html.{escape_html}
use borgo.Html.Decode.{
  reference, reference_text, named_ref, take_while, ended, decode_from, decode_html_text,
}

replace_all-cons :
    (c x : ℕ) (v s : Text)
    → replace_all (c ∷ []) v (x ∷ s) ≡ (if c == x then v else x ∷ []) ++ replace_all (c ∷ []) v s
unfolding replace_all replace_from has_prefix
replace_all-cons c x v s = elim (Bool-cases (c == x)) [ inl e ↦ rw e refl | inr e ↦ rw e refl ]

replace_all-append :
    (c : ℕ) (v s t : Text)
    → replace_all (c ∷ []) v (s ++ t) ≡ replace_all (c ∷ []) v s ++ replace_all (c ∷ []) v t
unfolding replace_all replace_from
replace_all-append c v [] t = refl
replace_all-append c v (x ∷ s) t =
    replace_all-cons c x v (s ++ t)
    ∙ ap (λ (r : Text). (if c == x then v else x ∷ []) ++ r) (replace_all-append c v s t)
    ∙ sym (
        append_assoc (if c == x then v else x ∷ []) (replace_all (c ∷ []) v s)
          (replace_all (c ∷ []) v t))
    ∙ ap (λ (r : Text). r ++ replace_all (c ∷ []) v t) (sym (replace_all-cons c x v s))

abbrev amps : Text → Text
amps = replace_all (codes "&") (codes "&amp;")

abbrev lts : Text → Text
lts = replace_all (codes "<") (codes "&lt;")

abbrev gts : Text → Text
gts = replace_all (codes ">") (codes "&gt;")

abbrev quotes : Text → Text
quotes = replace_all (codes "\"") (codes "&quot;")

escape_html-append : (s t : Text) → escape_html (s ++ t) ≡ escape_html s ++ escape_html t
unfolding escape_html
escape_html-append s t =
    ap quotes (
      ap gts (
        ap lts (replace_all-append b'&' (codes "&amp;") s t)
        ∙ replace_all-append b'<' (codes "&lt;") (amps s) (amps t))
      ∙ replace_all-append b'>' (codes "&gt;") (lts (amps s)) (lts (amps t)))
    ∙ replace_all-append b'"' (codes "&quot;") (gts (lts (amps s))) (gts (lts (amps t)))

-- what one code unit is escaped as
abbrev escaped : ℕ → Text
escaped x =
    if b'&' == x
    then codes "&amp;"
    else if b'<' == x
    then codes "&lt;"
    else if b'>' == x
    then codes "&gt;"
    else if b'"' == x
    then codes "&quot;"
    else x ∷ []

escape_html-one : (x : ℕ) → escape_html (x ∷ []) ≡ escaped x
unfolding escape_html replace_all replace_from has_prefix
escape_html-one x = elim (Bool-cases (b'&' == x)) [
  | inl e ↦ rw e refl
  | inr e ↦ rw e (elim (Bool-cases (b'<' == x)) [
    | inl e ↦ rw e refl
    | inr e ↦ rw e (elim (Bool-cases (b'>' == x)) [
      | inl e ↦ rw e refl
      | inr e ↦ rw e (elim (Bool-cases (b'"' == x)) [ inl e ↦ rw e refl | inr e ↦ rw e refl ])
    ])
  ])
]

escape_html-cons : (x : ℕ) (s : Text) → escape_html (x ∷ s) ≡ escaped x ++ escape_html s
escape_html-cons x s =
    escape_html-append (x ∷ []) s ∙ ap (λ (r : Text). r ++ escape_html s) (escape_html-one x)

module _ (object_text : Text) where
  decode_from-plain :
      (x : ℕ) (s : Text)
      → (b'&' == x) ≡ false
      → decode_from object_text 0 (x ∷ s) ≡ x ∷ decode_from object_text 0 s
  unfolding decode_from
  decode_from-plain x s e = rw (other, decode_from) refl
    where
      other : (x == b'&') ≡ false
      other = ground arith

  decode_from-escaped :
      (x : ℕ) (s : Text)
      → decode_from object_text 0 (escaped x ++ s) ≡ x ∷ decode_from object_text 0 s
  unfolding decode_from reference reference_text named_ref take_while ended lookup ◌===◌
  decode_from-escaped x s = elim (Bool-cases (b'&' == x)) [
    | inl e ↦ rw e (same b'&' e)
    | inr amp ↦ rw amp (elim (Bool-cases (b'<' == x)) [
      | inl e ↦ rw e (same b'<' e)
      | inr e ↦ rw e (elim (Bool-cases (b'>' == x)) [
        | inl e ↦ rw e (same b'>' e)
        | inr e ↦ rw e (elim (Bool-cases (b'"' == x)) [
          | inl e ↦ rw e (same b'"' e)
          | inr e ↦ rw e (decode_from-plain x s amp)
        ])
      ])
    ])
  ]
    where
      same :
          (c : ℕ)
          → (c == x) ≡ true
          → c ∷ decode_from object_text 0 s ≡ x ∷ decode_from object_text 0 s
      same c e = ap (λ (y : ℕ). y ∷ decode_from object_text 0 s) ((==_iff c x).0 e)

  decode_from-escape_html : (s : Text) → decode_from object_text 0 (escape_html s) ≡ s
  unfolding decode_from escape_html replace_all replace_from
  decode_from-escape_html [] = refl
  decode_from-escape_html (x ∷ s) =
      ap (decode_from object_text 0) (escape_html-cons x s)
      ∙ decode_from-escaped x (escape_html s)
      ∙ ap (◌∷◌ x) (decode_from-escape_html s)

-- no code unit that opens or closes a tag or a quoted value
abbrev is_mark : ℕ → Bool
is_mark c = b'<' == c || b'>' == c || b'"' == c

abbrev pub IsInert : Text → Type 0
IsInert = All (λ (c : ℕ). is_mark c ≡ false)

escaped-IsInert : (x : ℕ) → IsInert (escaped x)
escaped-IsInert x = elim (Bool-cases (b'&' == x)) [
  | inl e ↦ rw e (refl, (refl, (refl, (refl, (refl, tt)))))
  | inr amp ↦ rw amp (elim (Bool-cases (b'<' == x)) [
    | inl e ↦ rw e (refl, (refl, (refl, (refl, tt))))
    | inr lt ↦ rw lt (elim (Bool-cases (b'>' == x)) [
      | inl e ↦ rw e (refl, (refl, (refl, (refl, tt))))
      | inr gt ↦ rw gt (elim (Bool-cases (b'"' == x)) [
        | inl e ↦ rw e (refl, (refl, (refl, (refl, (refl, (refl, tt))))))
        | inr quote ↦ rw quote (unmarked lt gt quote, tt)
      ])
    ])
  ])
]
  where
    unmarked : (b'<' == x) ≡ false → (b'>' == x) ≡ false → (b'"' == x) ≡ false → is_mark x ≡ false
    unmarked lt gt quote = rw (lt, gt, quote) refl

escape_html-IsInert : (s : Text) → IsInert (escape_html s)
unfolding escape_html replace_all replace_from
escape_html-IsInert [] = tt
escape_html-IsInert (x ∷ s) = subst IsInert (sym (escape_html-cons x s)) (
    All-append (λ (c : ℕ). is_mark c ≡ false) (escaped x) (escape_html s) (escaped-IsInert x)
      (escape_html-IsInert s))

-- An escaped text has no "<", no ">" and no quotation mark, and reading it as html gives the text back,
-- whatever the text of the object that the table of names inherits from.
pub decode_html_text-escape_html :
    (object_text s : Text)
    → IsInert (escape_html s) × (decode_html_text object_text (escape_html s) ≡ s)
unfolding decode_html_text
decode_html_text-escape_html object_text s =
    (escape_html-IsInert s, decode_from-escape_html object_text s)
