-- ===== src/Assets/Validators.antt =====
-- The validators of a file in packages/borgo/src/compress.ts: `assetEtag`, `isNotModified` and
-- `isRangeStale`.
pub mod Base36
pub mod Tags
use borgo.Common.{
  ℕ, zero, suc, ◌+◌, ◌*◌, ◌/◌, ◌%◌, Bool, true, false, ◌&&◌, ◌||◌, not, List, [], ◌∷◌, ◌++◌, Option,
  none, some, is_empty, if◌then◌else◌, ltb, leb, drop, any,
}
use borgo.Text.{Text, codes, ◌===◌, has_prefix, split, trim}
use borgo.Params.{Params, get}

-- a digit of `n.toString(36)`
unfoldable pub digit36 : ℕ → ℕ
digit36 n = if ltb n 10 then b'0' + n else 87 + n

-- `n.toString(36)`, with as many rounds as it has digits at most
unfoldable pub base36_from : ℕ → ℕ → Text → Text
base36_from zero n digits = digits
base36_from (suc rounds) n digits =
    let rest = base36_from rounds (n / 36) (digit36 (n % 36) ∷ digits) in
    if ltb n 36 then digit36 n ∷ digits else rest

unfoldable pub base36 : ℕ → Text
unfolding base36_from digit36
base36 n = base36_from (suc n) n []

unfoldable pub asset_etag : ℕ → ℕ → Text → Text
unfolding base36
asset_etag size modified suffix =
    codes "W/\"" ++ (base36 size ++ (b'-' ∷ (base36 modified ++ (suffix ++ codes "\""))))

unfoldable pub is_weak : Text → Bool
is_weak validator = has_prefix (codes "W/") validator

unfoldable pub strong : Text → Text
unfolding is_weak
strong validator = if is_weak validator then drop 2 validator else validator

module _ (parse_date : Text → Option ℕ) where
  -- a date of If-Modified-Since; `Date.parse` gives none where it gives no number or one below 0
  unfoldable pub is_since : Option Text → ℕ → Bool
  is_since none modified = false
  is_since (some since) modified =
      if is_empty since
      then false
      else elim (parse_date since) [ none ↦ false | some at ↦ leb (modified / 1000 * 1000) at ]

  unfoldable pub is_not_modified : Params → Text → ℕ → Bool
  unfolding is_since strong
  is_not_modified asked etag modified = elim (get (codes "if-none-match") asked) [
    | some given ↦
        trim given === codes "*"
        || any (λ candidate. strong (trim candidate) === strong etag) (split b',' given)
    | none ↦ is_since (get (codes "if-modified-since") asked) modified
  ]

unfoldable pub has_header : Text → Params → Bool
has_header name asked = elim (get name asked) [ none ↦ false | some v ↦ true ]

unfoldable pub is_range_stale : Params → Text → Bool
unfolding is_weak has_header
is_range_stale asked etag = elim (get (codes "if-range") asked) [
  | none ↦ false
  | some given ↦
      has_header (codes "range") asked
      && (is_weak etag || is_weak (trim given) || not (trim given === etag))
]
