-- ===== src/Guard/Boot/Routes.antt =====
-- `guardsRoute` answers yes for every route that has a page under the guard.
use borgo.Common.{
  ◌≡◌, refl, inl, inr, true, List, [], ◌∷◌, any, Option, some, All, arith, Option-cases,
}
use borgo.Text.{Text}
use borgo.Result.{value}
use borgo.Params.{Params}
use borgo.Router.{match_pattern}
use borgo.Guard.{match_entry, segments_of, patterns_overlap}
use borgo.Guard.Accepted.{IsAccepted}
use borgo.Guard.Overlap.{IsPlain, patterns_overlap_complete}
use borgo.Guard.Boot.{
  Matcher, Exports, PageGuard, first_cover, compiled_covers, compiled_route, covers, guards_route,
  resolve, IsCompiled, everything, listed, resolve-IsCompiled,
}

-- A covered path is covered by one of the entries.
pub data Covered (pathname : Text) : List Text → Type 0 where
  here :
      {e : Text} {es : List Text} {params : Params}
      → match_entry e pathname ≡ some params
      → Covered pathname (e ∷ es)
  there : {e : Text} {es : List Text} → Covered pathname es → Covered pathname (e ∷ es)

pub first_cover-Covered :
    (es : List Text) (pathname : Text) {params : Params}
    → first_cover es pathname ≡ some params
    → Covered pathname es
unfolding first_cover
first_cover-Covered [] pathname h = cc
first_cover-Covered (e ∷ es) pathname h = elim (Option-cases (match_entry e pathname)) [
  | inl missed ↦ there (first_cover-Covered es pathname (rw (missed, first_cover) at h))
  | inr (params, found) ↦ here found
]

any-overlap :
    (p q : Text) (es : List Text) {params : Params}
    → All IsPlain (segments_of (b'/' ∷ p))
    → All IsAccepted es
    → match_pattern (b'/' ∷ p) (b'/' ∷ q) ≡ some params
    → Covered (b'/' ∷ q) es
    → any (patterns_overlap (b'/' ∷ p)) es ≡ true
any-overlap p q [] plain _ matched h = elim h [ ]
any-overlap p q (e ∷ es) plain (a, _) matched (here found) =
    rw (patterns_overlap_complete p e q plain a matched found) refl
any-overlap p q (e ∷ es) plain (_, rest) matched (there later) =
    let ih = any-overlap p q es plain rest matched later in ground arith

compiled_covers-compiled_route :
    (p q : Text) {m : Matcher} {c : Option (List Text)} {params params' : Params}
    → IsCompiled m c
    → All IsPlain (segments_of (b'/' ∷ p))
    → match_pattern (b'/' ∷ p) (b'/' ∷ q) ≡ some params
    → compiled_covers c (b'/' ∷ q) ≡ some params'
    → compiled_route c (b'/' ∷ p) ≡ true
unfolding compiled_covers compiled_route
compiled_covers-compiled_route p q everything plain matched covered = refl
compiled_covers-compiled_route p q (listed {ts} ne accepted) plain matched covered =
    any-overlap p q ts plain accepted matched (first_cover-Covered ts (b'/' ∷ q) covered)

-- If the guard that a module boots covers a path, it guards every route whose pattern matches that
-- path: the pattern's static segments are written decoded.
pub covers-guards_route :
    {F : Type 0} (m : Exports F) (p q : Text) {g : PageGuard F} {params params' : Params}
    → resolve (some m) ≡ value (some g)
    → All IsPlain (segments_of (b'/' ∷ p))
    → match_pattern (b'/' ∷ p) (b'/' ∷ q) ≡ some params
    → covers g (b'/' ∷ q) ≡ some params'
    → guards_route g (b'/' ∷ p) ≡ true
unfolding covers guards_route
covers-guards_route m p q booted plain matched covered =
    compiled_covers-compiled_route p q (resolve-IsCompiled m booted).1 plain matched covered
