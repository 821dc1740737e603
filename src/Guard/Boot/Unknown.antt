-- ===== src/Guard/Boot/Unknown.antt =====
-- `guardsUnknown` answers yes if some path that no route answers is under the guard.
use borgo.Common.{
  ℕ, ◌≡◌, refl, sym, subst, ap, ◌∙◌, ◌⊎◌, inl, inr, Bool, true, false, ◌||◌, List, [], ◌∷◌, ◌++◌,
  map, any, ◌==◌, Option, none, some, All, arith, Bool-cases, ==_iff,
}
use borgo.Text.{Text, ◌===◌, ===_iff, starts_with, includes, split, join, join-split, split-ne-nil}
use borgo.Result.{value}
use borgo.Params.{Params}
use borgo.Router.{safe_decode, match_pattern}
use borgo.Router.Match.{Fits, match_pattern_iff}
use borgo.Guard.{
  is_param, decode_segment, match_entry, segments_of, parts_of, overlap, patterns_overlap,
}
use borgo.Guard.Accepted.{IsAccepted}
use borgo.Guard.Cover.{Covers, match_entry_iff}
use borgo.Guard.Boot.{
  Matcher, Exports, PageGuard, compiled_covers, compiled_unknown, covers, guards_unknown, resolve,
  IsCompiled, everything, listed, resolve-IsCompiled,
}
use borgo.Guard.Boot.Routes.{Covered, here, there, first_cover-Covered}

-- a segment that takes one part as it is
abbrev IsStatic : Text → Type 0
IsStatic m = is_param m ≡ false

overlap-cons :
    (r m : Text) (rs ms : List Text)
    → IsStatic m
    → overlap (r ∷ rs) (m ∷ ms) ≡ true
    → ((is_param r ≡ true) ⊎ ((is_param r ≡ false) × (r ≡ m))) × (overlap rs ms ≡ true)
unfolding overlap
overlap-cons r m rs ms st h = ground (arith, ===_iff r m)

-- A pattern that overlaps the segments of a static entry fits every path that they cover.
Fits-overlap :
    {ms xs : List Text} (rs : List Text)
    → Covers ms xs
    → All IsStatic ms
    → overlap rs ms ≡ true
    → Fits rs xs
Fits-overlap rs (Covers.wildcard w) (st, _) h = absurd (ground arith)
Fits-overlap [] Covers.done st h = Fits.done
Fits-overlap (r ∷ rs) Covers.done st h = unfold overlap in cc
Fits-overlap rs (Covers.param _ isp _ _) (st, _) h = absurd (ground arith)
Fits-overlap [] (Covers.static w _ _ _ _) st h = unfold overlap in ground arith
Fits-overlap (r ∷ rs) (Covers.static {m} {x} {ms} w _ ne e c) st h =
    let (first, later) = overlap-cons r m rs ms st.0 h in
    let rest = Fits-overlap rs c st.1 later in
    elim first [
      | inl isp ↦ Fits.param isp ne rest
      | inr (isp, same) ↦ Fits.static isp (as_written same e) rest
    ]
  where
    as_written : r ≡ m → (m ≡ x) ⊎ (m ≡ decode_segment x) → (r ≡ x) ⊎ (r ≡ safe_decode x)
    as_written same (inl e) = inl (same ∙ e)
    as_written same (inr e) = inr (same ∙ e ∙ unfold decode_segment safe_decode in refl)

includes-append :
    (c : ℕ) (s t : Text)
    → includes c (s ++ t) ≡ false
    → (includes c s ≡ false) × (includes c t ≡ false)
includes-append c [] t h = (refl, h)
includes-append c (x ∷ s) t h = elim (Bool-cases (x == c)) [
  | inl e ↦ absurd (ground arith)
  | inr e ↦ let ih = includes-append c s t (ground arith) in (ground arith, ih.1)
]

starts_with-includes : (c : ℕ) (s : Text) → includes c s ≡ false → starts_with c s ≡ false
starts_with-includes c [] h = refl
starts_with-includes c (x ∷ s) h = ground arith

join-IsStatic : (ps : List Text) → includes b':' (join (b'/' ∷ []) ps) ≡ false → All IsStatic ps
unfolding join
join-IsStatic [] h = tt
join-IsStatic (p ∷ []) h = (starts_with-includes b':' p h, tt)
join-IsStatic (p ∷ q ∷ ps) h =
    let (first, later) = includes-append b':' p (b'/' ∷ join (b'/' ∷ []) (q ∷ ps)) h in
    (starts_with-includes b':' p first, join-IsStatic (q ∷ ps) later)

segments_of-IsStatic :
    (e : Text) → includes b':' (b'/' ∷ e) ≡ false → All IsStatic (segments_of (b'/' ∷ e))
unfolding segments_of ◌===◌
segments_of-IsStatic [] h = tt
segments_of-IsStatic (c ∷ e) h =
    join-IsStatic (split b'/' (c ∷ e)) (ap (includes b':') (join-split b'/' (c ∷ e)) ∙ h)

Fits-nil : {rs xs : List Text} → Fits rs xs → (rs ≡ [] → xs ≡ []) × (xs ≡ [] → rs ≡ [])
Fits-nil Fits.done = (λ e. e, λ e. e)
Fits-nil (Fits.param _ _ _) = (λ e. cc, λ e. cc)
Fits-nil (Fits.static _ _ _) = (λ e. cc, λ e. cc)

Fits-unroot :
    (p q : Text)
    → Fits (segments_of (b'/' ∷ p)) (parts_of (b'/' ∷ q))
    → Fits (split b'/' (b'/' ∷ p)) (split b'/' (b'/' ∷ q))
unfolding split segments_of parts_of ◌===◌
Fits-unroot [] [] f = Fits.static refl (inl refl) (Fits.static refl (inl refl) Fits.done)
Fits-unroot (c ∷ p) (d ∷ q) f = Fits.static refl (inl refl) f
Fits-unroot [] (d ∷ q) f = absurd (split-ne-nil b'/' (d ∷ q) ((Fits-nil f).0 refl))
Fits-unroot (c ∷ p) [] f = absurd (split-ne-nil b'/' (c ∷ p) ((Fits-nil f).1 refl))

none-ne-some : {params : Params} → none ≡ some params → ⊥
none-ne-some h = cc

-- An entry without a param that covers a path overlaps no pattern that misses the path.
overlap_of_missed :
    (e p q : Text) {params : Params}
    → includes b':' (b'/' ∷ e) ≡ false
    → match_entry (b'/' ∷ e) (b'/' ∷ q) ≡ some params
    → match_pattern (b'/' ∷ p) (b'/' ∷ q) ≡ none
    → patterns_overlap (b'/' ∷ p) (b'/' ∷ e) ≡ false
unfolding patterns_overlap
overlap_of_missed e p q st covered missed =
    elim (Bool-cases (overlap (segments_of (b'/' ∷ p)) (segments_of (b'/' ∷ e)))) [
      | inr apart ↦ apart
      | inl meets ↦
          let c = (match_entry_iff (b'/' ∷ e) (b'/' ∷ q)).0 (_, covered) in
          let f = Fits-overlap (segments_of (b'/' ∷ p)) c (segments_of-IsStatic e st) meets in
          let (params, found) = (match_pattern_iff (b'/' ∷ p) (b'/' ∷ q)).1 (Fits-unroot p q f) in
          absurd (none-ne-some (sym missed ∙ found))
    ]

rooted : (e : Text) → starts_with b'/' e ≡ true → (t : Text) × (e ≡ b'/' ∷ t)
rooted [] h = cc
rooted (c ∷ t) h = (t, ap (λ x. x ∷ t) ((==_iff c b'/').0 h))

any_missed :
    (e q : Text) (ps : List Text) {params : Params}
    → starts_with b'/' e ≡ true
    → includes b':' e ≡ false
    → match_entry e (b'/' ∷ q) ≡ some params
    → All (λ p. match_pattern (b'/' ∷ p) (b'/' ∷ q) ≡ none) ps
    → any (λ p. patterns_overlap p e) (map (◌∷◌ b'/') ps) ≡ false
any_missed e q [] at_root st covered missed = refl
any_missed e q (p ∷ ps) {params} at_root st covered (first, rest) =
    let (t, same) = rooted e at_root in
    let st' = subst (λ x. includes b':' x ≡ false) same st in
    let covered' = subst (λ x. match_entry x (b'/' ∷ q) ≡ some params) same covered in
    let apart : patterns_overlap (b'/' ∷ p) e ≡ false =
      subst (λ x. patterns_overlap (b'/' ∷ p) x ≡ false) (sym same)
        (overlap_of_missed t p q st' covered' first) in
    rw apart (any_missed e q ps at_root st covered rest)

or-true : (b : Bool) → (b || true) ≡ true
or-true true = refl
or-true false = refl

any_unknown :
    (q : Text) (es ps : List Text)
    → All IsAccepted es
    → All (λ p. match_pattern (b'/' ∷ p) (b'/' ∷ q) ≡ none) ps
    → Covered (b'/' ∷ q) es
    → compiled_unknown (some es) (map (◌∷◌ b'/') ps) ≡ true
unfolding compiled_unknown
any_unknown q [] ps _ missed h = elim h [ ]
any_unknown q (e ∷ es) ps (a, _) missed (here found) = elim (Bool-cases (includes b':' e)) [
  | inl open_ended ↦ rw open_ended refl
  | inr st ↦ rw (st, any_missed e q ps a.rooted st found missed) refl
]
any_unknown q (e ∷ es) ps (_, rest) missed (there later) =
    rw (any_unknown q es ps rest missed later) (or-true _)

compiled_unknown_complete :
    (q : Text) (ps : List Text) {m : Matcher} {c : Option (List Text)} {params : Params}
    → IsCompiled m c
    → All (λ p. match_pattern (b'/' ∷ p) (b'/' ∷ q) ≡ none) ps
    → compiled_covers c (b'/' ∷ q) ≡ some params
    → compiled_unknown c (map (◌∷◌ b'/') ps) ≡ true
unfolding compiled_covers
compiled_unknown_complete q ps everything missed covered = unfold compiled_unknown in refl
compiled_unknown_complete q ps (listed {ts} ne accepted) missed covered =
    any_unknown q ts ps accepted missed (first_cover-Covered ts (b'/' ∷ q) covered)

-- If the guard that a module boots covers a path that no route's pattern matches, it says that it
-- guards unknown paths. All patterns start with a slash.
pub covers-guards_unknown :
    {F : Type 0} (m : Exports F) (q : Text) (ps : List Text) {g : PageGuard F} {params : Params}
    → resolve (some m) ≡ value (some g)
    → All (λ p. match_pattern (b'/' ∷ p) (b'/' ∷ q) ≡ none) ps
    → covers g (b'/' ∷ q) ≡ some params
    → guards_unknown g (map (◌∷◌ b'/') ps) ≡ true
unfolding covers guards_unknown
covers-guards_unknown m q ps booted missed covered =
    compiled_unknown_complete q ps (resolve-IsCompiled m booted).1 missed covered
