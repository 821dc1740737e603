-- ===== src/Assets/Validators/Tags.antt =====
-- The tags of files, `assetEtag`, and the requests that repeat one.
use borgo.Common.{
  ℕ, ◌≡◌, ◌↔◌, refl, sym, ◌∙◌, ap, Bool, true, false, ◌&&◌, ◌||◌, [], ◌∷◌, ◌++◌, Option, none, some,
  all, any, is_empty, drop_last, if◌then◌else◌, ◌==◌, arith, All-append,
}
use borgo.Text.{
  Text, codes, ◌===◌, ===_iff, is_space, trim, trim_start, trim_end, split, split_of_Lacks, Lacks,
  has_prefix,
}
use borgo.Params.{Params, get}
use borgo.Assets.Validators.{base36, asset_etag, is_weak, strong, is_not_modified}
use borgo.Assets.Validators.Base36.{is_digit36, base36-all, base36-injective, digits-end, cons-eq}
use borgo.Assets.Serve.{etag_suffix}

abbrev closed : Option Text → Text
closed e = etag_suffix e ++ (b'"' ∷ [])

drop_last-append : (s : Text) (c : ℕ) → drop_last (s ++ (c ∷ [])) ≡ s
drop_last-append [] c = refl
drop_last-append (x ∷ []) c = refl
drop_last-append (x ∷ y ∷ s) c = ap (λ (t : Text). x ∷ t) (drop_last-append (y ∷ s) c)

-- A suffix can be read off, behind digits.
suffix-eq : (e f : Option Text) → closed e ≡ closed f → e ≡ f
suffix-eq none none h = refl
suffix-eq none (some f) h = cc
suffix-eq (some e) none h = cc
suffix-eq (some e) (some f) h =
    ap some (sym (drop_last-append e b'"') ∙ ap drop_last (cons-eq h).1 ∙ drop_last-append f b'"')

digits_end_at :
    (m n c d : ℕ) (r q : Text)
    → is_digit36 c ≡ false
    → is_digit36 d ≡ false
    → base36 m ++ (c ∷ r) ≡ base36 n ++ (d ∷ q)
    → (m ≡ n) × ((c ∷ r) ≡ (d ∷ q))
digits_end_at m n c d r q hc hd h =
    let (same, rest) =
      digits-end (base36 m) (base36 n) c d r q (base36-all m) (base36-all n) hc hd h in
    (base36-injective m n same, rest)

digits_suffix-eq :
    (m n : ℕ) (e f : Option Text) → base36 m ++ closed e ≡ base36 n ++ closed f → (m ≡ n) × (e ≡ f)
digits_suffix-eq m n none none h = ((digits_end_at m n b'"' b'"' [] [] refl refl h).0, refl)
digits_suffix-eq m n none (some f) h =
    let (same, rest) = digits_end_at m n b'"' b'-' [] (f ++ (b'"' ∷ [])) refl refl h in
    (same, suffix-eq none (some f) rest)
digits_suffix-eq m n (some e) none h =
    let (same, rest) = digits_end_at m n b'-' b'"' (e ++ (b'"' ∷ [])) [] refl refl h in
    (same, suffix-eq (some e) none rest)
digits_suffix-eq m n (some e) (some f) h =
    let (same, rest) =
      digits_end_at m n b'-' b'-' (e ++ (b'"' ∷ [])) (f ++ (b'"' ∷ [])) refl refl h in
    (same, suffix-eq (some e) (some f) rest)

-- A file's tag tells its size, its time and its encoding.
pub asset_etag-injective :
    (s m t n : ℕ) (e f : Option Text)
    → asset_etag s m (etag_suffix e) ≡ asset_etag t n (etag_suffix f)
    → (s ≡ t) × (m ≡ n) × (e ≡ f)
unfolding asset_etag
asset_etag-injective s m t n e f h =
    let (sizes, rest) =
      digits-end (base36 s) (base36 t) b'-' b'-' (base36 m ++ closed e) (base36 n ++ closed f)
        (base36-all s) (base36-all t) refl refl (cons-eq (cons-eq (cons-eq h).1).1).1 in
    let (times, same) = digits_suffix-eq m n e f (cons-eq rest).1 in
    (base36-injective s t sizes, times, same)

-- A text that does not end in white space, with something before the end.
abbrev Settled : Text → Type 0
Settled t = (trim_end t ≡ t) × (is_empty t ≡ false)

cons-Settled : (c : ℕ) (t : Text) → Settled t → Settled (c ∷ t)
unfolding trim_end
cons-Settled c t (ends, filled) = (rw ends (kept (is_space c) (is_empty t) filled), refl)
  where
    kept : (a b : Bool) → b ≡ false → (if a && b then [] else c ∷ t) ≡ c ∷ t
    kept a b h = ground arith

append-Settled : (s t : Text) → Settled t → Settled (s ++ t)
append-Settled [] t h = h
append-Settled (c ∷ s) t h = cons-Settled c (s ++ t) (append-Settled s t h)

asset_etag-trim : (s m : ℕ) (suffix : Text) → trim (asset_etag s m suffix) ≡ asset_etag s m suffix
unfolding trim trim_start trim_end is_space asset_etag
asset_etag-trim s m suffix =
    (append-Settled (codes "W/\"") (base36 s ++ (b'-' ∷ (base36 m ++ (suffix ++ codes "\"")))) (
      append-Settled (base36 s) (b'-' ∷ (base36 m ++ (suffix ++ codes "\""))) (
        cons-Settled b'-' (base36 m ++ (suffix ++ codes "\"")) (
          append-Settled (base36 m) (suffix ++ codes "\"")
            (append-Settled suffix (codes "\"") (refl, refl)))))).0

digits-Lacks : (s : Text) → all is_digit36 s ≡ true → Lacks b',' s
digits-Lacks [] h = tt
digits-Lacks (c ∷ s) h = (ground arith, digits-Lacks s (ground arith))

asset_etag-Lacks :
    (s m : ℕ) (suffix : Text) → Lacks b',' suffix → Lacks b',' (asset_etag s m suffix)
unfolding asset_etag
asset_etag-Lacks s m suffix h =
    All-append (NoComma) (codes "W/\"") _ (refl, (refl, (refl, tt)))
      (All-append NoComma (base36 s) _ (digits-Lacks (base36 s) (base36-all s)) (
        refl,
        All-append NoComma (base36 m) _ (digits-Lacks (base36 m) (base36-all m))
            (All-append NoComma suffix (codes "\"") h (refl, tt)),
      ))
  where
    NoComma : ℕ → Type 0
    NoComma x = (x == b',') ≡ false

strong_etag :
    (s m : ℕ) (suffix : Text) → codes "W/" ++ strong (asset_etag s m suffix) ≡ asset_etag s m suffix
unfolding strong is_weak asset_etag has_prefix
strong_etag s m suffix = refl

asset_etag-not-star : (s m : ℕ) (suffix : Text) → (asset_etag s m suffix === codes "*") ≡ false
unfolding asset_etag ◌===◌
asset_etag-not-star s m suffix = refl

any-one : {A : Type 0} (p : A → Bool) (x : A) → any p (x ∷ []) ≡ p x
any-one p x = last (p x)
  where
    last : (b : Bool) → (b || false) ≡ b
    last b = ground arith

is_not_modified-given :
    (parse_date : Text → Option ℕ) (asked : Params) (given etag : Text) (n : ℕ)
    → get (codes "if-none-match") asked ≡ some given
    → (trim given === codes "*") ≡ false
    → trim given ≡ given
    → split b',' given ≡ given ∷ []
    → is_not_modified parse_date asked etag n ≡ (strong given === strong etag)
unfolding is_not_modified
is_not_modified-given parse_date asked given etag n e star trimmed alone =
    rw (e, is_not_modified)
      (rw (star, alone)
        (any-one (λ (candidate : Text). strong (trim candidate) === strong etag) given
          ∙ ap (λ (r : Text). strong r === strong etag) trimmed))

-- A request whose If-None-Match is the tag of a file is told that nothing has changed exactly if the
-- file that would be sent has the same length, the same time in whole milliseconds and the same
-- encoding, where no encoding's name has a comma.
pub is_not_modified-asset_etag :
    (parse_date : Text → Option ℕ) (asked : Params) (s m t n : ℕ) (e f : Option Text)
    → Lacks b',' (etag_suffix e)
    → get (codes "if-none-match") asked ≡ some (asset_etag s m (etag_suffix e))
    → (is_not_modified parse_date asked (asset_etag t n (etag_suffix f)) n ≡ true)
      ↔ ((s ≡ t) × (m ≡ n) × (e ≡ f))
is_not_modified-asset_etag parse_date asked s m t n e f plain given = (
  λ h. asset_etag-injective s m t n e f (
      sym (strong_etag s m (etag_suffix e))
      ∙ ap (λ (r : Text). codes "W/" ++ r) ((===_iff (strong tag) (strong other)).0 (sym told ∙ h))
      ∙ strong_etag t n (etag_suffix f)),
  λ (sizes, times, names). told ∙ (===_iff (strong tag) (strong other)).1 (cc),
)
  where
    tag : Text
    tag = asset_etag s m (etag_suffix e)

    other : Text
    other = asset_etag t n (etag_suffix f)

    told : is_not_modified parse_date asked other n ≡ (strong tag === strong other)
    told =
        is_not_modified-given parse_date asked tag other n given
          (rw (asset_etag-trim s m (etag_suffix e)) (asset_etag-not-star s m (etag_suffix e)))
          (asset_etag-trim s m (etag_suffix e))
          (split_of_Lacks b',' tag (asset_etag-Lacks s m (etag_suffix e) plain))
