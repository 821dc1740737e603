-- ===== src/ApiClient/Path/Shape.antt =====
-- The segments of a call's path, against those of its route.
use borgo.Common.{
  ℕ, ◌+◌, ◌≡◌, ◌≢◌, refl, sym, ap, ◌∙◌, subst, Bool, true, false, ◌||◌, List, [], ◌∷◌, ◌++◌, Option,
  none, some, ◌==◌, if◌then◌else◌, is_empty, length, length-append, drop, map, All, arith,
  Bool-cases, inl, inr, append_assoc, append-nil, ==_iff,
}
use borgo.Text.{Text, codes, ◌===◌, has_prefix, split, split-append, split_of_Lacks, join, Lacks}
use borgo.Result.{Result, thrown, value, ◌>>=◌, >>=-value, value-eq}
use borgo.Maps.{Map, lookup}
use borgo.ApiClient.{Fault}
use borgo.ApiClient.Encode.{encode_uri_component}
use borgo.ApiClient.Encode.Safe.{
  IsSafe, IsDots, encode_uri_component-IsSafe, encode_uri_component-IsDots,
}
use borgo.ApiClient.Path.{
  Wildcard, one, in_name, name_part, close_name, wildcard, segment, expand, fill_route_from,
  fill_route, present, encoded,
}

-- a segment of a route: text, or one param
pub data Piece : Type 0 where
  literal param : Text → Piece

abbrev pub text_of : Piece → Text
text_of (literal t) = t
text_of (param name) = b'{' ∷ (name ++ (b'}' ∷ []))

abbrev pub IsName : Text → Type 0
IsName name = (name ≢ []) × (name ≢ codes "$") × All (λ (c : ℕ). in_name c ≡ true) name

abbrev pub IsPiece : Piece → Type 0
IsPiece (literal t) = Lacks b'{' t × Lacks b'/' t
IsPiece (param name) = IsName name

-- the route of the pieces
abbrev pub route_of : List Piece → Text
route_of pieces = join (b'/' ∷ []) (map text_of pieces)

-- A param's segment is its encoded value, which does not end the segment or the path, and is not empty
-- or made of dots.
pub record IsSegment (params : Map (Option Text)) (name s : Text) : Type 0 where
  pub given : Text
  pub found : lookup name params ≡ some (some given)
  pub encoded : encode_uri_component given ≡ some s
  pub inside : IsSafe s
  pub solid : ¬ IsDots s

abbrev pub Fits : Map (Option Text) → List Piece → List Text → Type 0
Fits params [] [] = Unit
Fits params (literal t ∷ pieces) (s ∷ segments) = (s ≡ t) × Fits params pieces segments
Fits params (param name ∷ pieces) (s ∷ segments) =
    IsSegment params name s × Fits params pieces segments
Fits params _ _ = ⊥

true-ne-false : true ≡ false → ⊥
true-ne-false e = cc

name_part-append :
    (name s : Text) → All (λ (c : ℕ). in_name c ≡ true) name → name_part (name ++ (b'}' ∷ s)) ≡ name
unfolding name_part
name_part-append [] s h = refl
name_part-append (c ∷ name) s (e, h) = rw (e, name_part-append name s h) refl

drop-append : (xs ys : Text) → drop (length xs) (xs ++ ys) ≡ ys
drop-append [] ys = refl
drop-append (x ∷ xs) ys = drop-append xs ys

not_anchor : (name s : Text) → IsName name → has_prefix (codes "$}") (name ++ (b'}' ∷ s)) ≡ false
unfolding has_prefix in_name
not_anchor [] s (filled, other, h) = absurd (filled refl)
not_anchor (c ∷ []) s (filled, other, h) = elim (Bool-cases (b'$' == c)) [
  | inl e ↦ absurd (other (ap (λ (x : ℕ). x ∷ []) (sym ((==_iff b'$' c).0 e))))
  | inr e ↦ rw e refl
]
not_anchor (c ∷ d ∷ name) s (filled, other, (hc, (hd, h))) = ground arith

close_name_one :
    (name s : Text) → name ≢ [] → close_name name (b'}' ∷ s) ≡ some (one name, length name + 1)
unfolding close_name has_prefix
close_name_one [] s h = absurd (h refl)
close_name_one (c ∷ name) s h = refl

wildcard_of_name :
    (name s : Text) → IsName name → wildcard (name ++ (b'}' ∷ s)) ≡ some (one name, length name + 1)
unfolding wildcard
wildcard_of_name name s h =
    rw (not_anchor name s h, name_part-append name s h.2)
      (rw (drop-append name (b'}' ∷ s)) (close_name_one name s h.0))

present-value :
    (name v : Text) (o : Option (Option Text)) → present name o ≡ value v → o ≡ some (some v)
present-value name v none e = cc
present-value name v (some none) e = cc
present-value name v (some (some w)) e = ap (λ (x : Text). some (some x)) (value-eq e)

unrefused :
    (b : Bool) (why : Fault) (r : Result Fault Text) {v : Text}
    → (if b then thrown why else r) ≡ value v
    → (b ≡ false) × (r ≡ value v)
unrefused true why r e = cc
unrefused false why r e = (refl, e)

encoded-value : (name v : Text) (o : Option Text) → encoded name o ≡ value v → o ≡ some v
encoded-value name v none e = cc
encoded-value name v (some t) e = ap some (value-eq e)

no-IsDots :
    (t : Text) → is_empty t ≡ false → (t === codes "." || t === codes "..") ≡ false → ¬ IsDots t
unfolding ◌===◌
no-IsDots t filled other (inl e) = true-ne-false (subst (λ (x : Text). is_empty x ≡ false) e filled)
no-IsDots t filled other (inr (inl e)) =
    true-ne-false (subst (λ (x : Text). (x === codes "." || x === codes "..") ≡ false) e other)
no-IsDots t filled other (inr (inr e)) =
    true-ne-false (subst (λ (x : Text). (x === codes "." || x === codes "..") ≡ false) e other)

segment-value :
    (name given v : Text)
    → segment name given ≡ value v
    → (encode_uri_component given ≡ some v) × (¬ IsDots given)
unfolding segment
segment-value name given v e =
    let (filled, f) = unrefused (is_empty given) _ _ e in
    let (other, g) = unrefused (given === codes "." || given === codes "..") _ _ f in
    (encoded-value name v (encode_uri_component given) g, no-IsDots given filled other)

safe-Lacks : (v : Text) → IsSafe v → Lacks b'/' v
safe-Lacks [] h = tt
safe-Lacks (c ∷ v) (e, h) = (ground arith, safe-Lacks v h)

module _ (params : Map (Option Text)) where
  fill_route_from-drop :
      (xs ys : Text) → fill_route_from params (length xs) (xs ++ ys) ≡ fill_route_from params 0 ys
  unfolding fill_route_from
  fill_route_from-drop [] ys = refl
  fill_route_from-drop (x ∷ xs) ys = fill_route_from-drop xs ys

  fill_route_from-other :
      (c : ℕ) (s : Text)
      → (c == b'{') ≡ false
      → fill_route_from params 0 (c ∷ s)
        ≡ (fill_route_from params 0 s >>= λ (m : Text). value (c ∷ m))
  unfolding fill_route_from
  fill_route_from-other c s e = rw (e, fill_route_from) refl

  fill_route_from-wildcard :
      (s : Text) (w : Wildcard) (n : ℕ)
      → wildcard s ≡ some (w, n)
      → fill_route_from params 0 (b'{' ∷ s) ≡ (
          expand params w >>= λ (v : Text).
          fill_route_from params n s >>= λ (m : Text). value (v ++ m))
  unfolding fill_route_from has_prefix
  fill_route_from-wildcard s w n e = rw e refl

  -- text without a wildcard stays
  fill_route_from-literal :
      (t s path : Text)
      → Lacks b'{' t
      → fill_route_from params 0 (t ++ s) ≡ value path
      → (more : Text) × (path ≡ t ++ more) × (fill_route_from params 0 s ≡ value more)
  fill_route_from-literal [] s path h e = (path, refl, e)
  fill_route_from-literal (c ∷ t) s path (d, h) e =
      let (more, f, g) =
        >>=-value (fill_route_from params 0 (t ++ s)) (λ (m : Text). value (c ∷ m))
          (sym (fill_route_from-other c (t ++ s) d) ∙ e) in
      let (last, same, r) = fill_route_from-literal t s more h f in
      (last, sym (value-eq g) ∙ ap (◌∷◌ c) same, r)

  -- a param stands where its wildcard stood
  fill_route_from-param :
      (name s path : Text)
      → IsName name
      → fill_route_from params 0 (b'{' ∷ (name ++ (b'}' ∷ s))) ≡ value path
      → (v : Text) × (more : Text) × (path ≡ v ++ more)
        × (expand params (one name) ≡ value v)
        × (fill_route_from params 0 s ≡ value more)
  fill_route_from-param name s path h e =
      let taken =
        fill_route_from-wildcard (name ++ (b'}' ∷ s)) (one name) (length name + 1)
          (wildcard_of_name name s h) in
      let (v, f, g) = >>=-value (expand params (one name)) _ (sym taken ∙ e) in
      let (more, r, same) =
        >>=-value (fill_route_from params (length name + 1) (name ++ (b'}' ∷ s)))
          (λ (m : Text). value (v ++ m)) g in
      (v, more, sym (value-eq same), f, sym (behind_name name s) ∙ r)
    where
      behind_name :
          (name s : Text)
          → fill_route_from params (length name + 1) (name ++ (b'}' ∷ s))
            ≡ fill_route_from params 0 s
      behind_name name s =
          subst
            (λ (n : ℕ). fill_route_from params n (name ++ (b'}' ∷ s)) ≡ fill_route_from params 0 s)
            (length-append name (b'}' ∷ []))
            (subst
              (λ (t : Text).
                fill_route_from params (length (name ++ (b'}' ∷ []))) t
                ≡ fill_route_from params 0 s)
              (append_assoc name (b'}' ∷ []) s) (fill_route_from-drop (name ++ (b'}' ∷ [])) s))

  expand-IsSegment : (name v : Text) → expand params (one name) ≡ value v → IsSegment params name v
  unfolding expand
  expand-IsSegment name v e =
      let (given, f, g) = >>=-value (present name (lookup name params)) (segment name) e in
      let (h, solid) = segment-value name given v g in
      record {
        given = given;
        found = present-value name given _ f;
        encoded = h;
        inside = encode_uri_component-IsSafe given v h;
        solid = λ dots. solid (encode_uri_component-IsDots given v h dots);
      }

  -- A piece gives a segment, and the rest goes on.
  fill_route_from-piece :
      (p : Piece) (s path : Text)
      → IsPiece p
      → fill_route_from params 0 (text_of p ++ s) ≡ value path
      → (v : Text) × (more : Text) × (path ≡ v ++ more)
        × Fits params (p ∷ []) (v ∷ [])
        × Lacks b'/' v
        × (fill_route_from params 0 s ≡ value more)
  fill_route_from-piece (literal t) s path h e =
      let (more, same, r) = fill_route_from-literal t s path h.0 e in
      (t, more, same, (refl, tt), h.1, r)
  fill_route_from-piece (param name) s path h e =
      let (v, more, same, f, r) = fill_route_from-param name s path h (
        subst (λ (x : Text). fill_route_from params 0 (b'{' ∷ x) ≡ value path)
          (append_assoc name (b'}' ∷ []) s) e) in
      let fits = expand-IsSegment name v f in
      (v, more, same, (fits, tt), safe-Lacks v fits.inside, r)

  Fits-cons :
      (p : Piece) (pieces : List Piece) (v : Text) (segments : List Text)
      → Fits params (p ∷ []) (v ∷ [])
      → Fits params pieces segments
      → Fits params (p ∷ pieces) (v ∷ segments)
  Fits-cons (literal t) pieces v segments (h, _) k = (h, k)
  Fits-cons (param name) pieces v segments (h, _) k = (h, k)

  slash :
      (s path : Text)
      → fill_route_from params 0 (b'/' ∷ s) ≡ value path
      → (more : Text) × (path ≡ b'/' ∷ more) × (fill_route_from params 0 s ≡ value more)
  slash s path e = fill_route_from-literal (b'/' ∷ []) s path (refl, tt) e

  nothing_left : (more : Text) → fill_route_from params 0 [] ≡ value more → more ≡ []
  unfolding fill_route_from
  nothing_left more r = sym (value-eq r)

  fill_route_from-Fits :
      (p : Piece) (pieces : List Piece) (path : Text)
      → All IsPiece (p ∷ pieces)
      → fill_route_from params 0 (route_of (p ∷ pieces)) ≡ value path
      → Fits params (p ∷ pieces) (split b'/' path)
  unfolding join
  fill_route_from-Fits p [] path (h, _) e =
      let (v, more, same, fits, alone, r) = fill_route_from-piece p [] path h (
        subst (λ (x : Text). fill_route_from params 0 x ≡ value path) (sym (append-nil (text_of p)))
          e) in
      let whole : path ≡ v =
        same ∙ ap (λ (x : Text). v ++ x) (nothing_left more r) ∙ append-nil v in
      subst (Fits params (p ∷ [])) (sym (ap (split b'/') whole ∙ split_of_Lacks b'/' v alone)) fits
  fill_route_from-Fits p (q ∷ pieces) path (h, hs) e =
      let (v, more, same, fits, alone, r) =
        fill_route_from-piece p (b'/' ∷ route_of (q ∷ pieces)) path h e in
      let (rest, again, r') = slash (route_of (q ∷ pieces)) more r in
      let tail = fill_route_from-Fits q pieces rest hs r' in
      subst (Fits params (p ∷ q ∷ pieces))
        (sym (
          ap (split b'/') (same ∙ ap (λ (x : Text). v ++ x) again)
          ∙ split-append b'/' v rest alone))
        (Fits-cons p (q ∷ pieces) v (split b'/' rest) fits tail)

  -- The path of a call has the segments of its route, text as it is written and each param as its
  -- encoded value, which is not empty or made of dots and holds none of "/", "?" and "#", if each
  -- segment of the route is text or one param.
  pub fill_route-Fits :
      (p : Piece) (pieces : List Piece) (path : Text)
      → All IsPiece (p ∷ pieces)
      → fill_route params (route_of (p ∷ pieces)) ≡ value path
      → Fits params (p ∷ pieces) (split b'/' path)
  unfolding fill_route
  fill_route-Fits p pieces path h e = fill_route_from-Fits p pieces path h e
