-- ===== src/Assets/Ranges.antt =====
-- Ranges that a client asks for under a condition (`isRangeStale` of packages/borgo/src/compress.ts).
use borgo.Common.{ℕ, ◌≡◌, refl, Bool, true, Option, none, some, Bool-cases, Option-cases, inl, inr}
use borgo.Text.{Text, codes, has_prefix}
use borgo.Params.{Params, get}
use borgo.Assets.{Stat, BuildOutputs, is_hidden_asset}
use borgo.Assets.Validators.{asset_etag, is_weak, is_not_modified, is_range_stale, has_header}
use borgo.Assets.Serve.{
  Platform, Content, file_of, AssetVariant, AssetInfo, etag_suffix, not_found, deliver, negotiate,
  indexed_answer, sibling_answer, serve_variant, serve_indexed, choose_sent, send, serve_asset,
}

-- A content of which the platform sends no range.
abbrev pub IsWhole : Content → Type 0
IsWhole (file_of path) = ⊥
IsWhole _ = Unit

asset_etag-is_weak : (s m : ℕ) (suffix : Text) → is_weak (asset_etag s m suffix) ≡ true
unfolding is_weak asset_etag has_prefix
asset_etag-is_weak s m suffix = refl

module _ (on : Platform) (asked : Params) (validator range : Text)
    (conditional : get (codes "if-range") asked ≡ some validator)
    (ranged : get (codes "range") asked ≡ some range) where
  range-stale : (etag : Text) → is_weak etag ≡ true → is_range_stale asked etag ≡ true
  unfolding is_range_stale has_header
  range-stale etag weak = rw (conditional, is_range_stale) (rw (has_range, weak) refl)
    where
      has_range : has_header (codes "range") asked ≡ true
      has_range = rw (ranged, has_header) refl

  deliver-IsWhole :
      (headers : Params) (content_type path : Text) (encoding : Option Text) (live : Stat)
      → IsWhole (deliver on asked headers content_type path encoding live).content
  unfolding deliver
  deliver-IsWhole headers content_type path encoding live =
      elim (Bool-cases (is_not_modified on.parse_date asked etag live.modified)) [
        | inl same ↦ rw same tt
        | inr changed ↦
            rw (changed, range-stale etag (asset_etag-is_weak live.size live.modified _)) tt
      ]
    where
      etag : Text
      etag = asset_etag live.size live.modified (etag_suffix encoding)

  indexed_answer-IsWhole :
      (info : AssetInfo) (variant : AssetVariant) (live base : Option Stat)
      → IsWhole (indexed_answer on asked info variant live base).content
  unfolding indexed_answer not_found
  indexed_answer-IsWhole info variant none base = tt
  indexed_answer-IsWhole info variant (some live) none = tt
  indexed_answer-IsWhole info variant (some live) (some base) =
      deliver-IsWhole _ info.content_type variant.path variant.encoding live

  sibling_answer-IsWhole :
      (info : AssetInfo) (variant : AssetVariant) (live : Option Stat)
      → IsWhole (sibling_answer on asked info variant live).content
  unfolding sibling_answer
  sibling_answer-IsWhole info variant none =
      indexed_answer-IsWhole info info.identity (on.stat info.identity.path)
        (on.stat info.identity.path)
  sibling_answer-IsWhole info variant (some live) =
      indexed_answer-IsWhole info variant (some live) (on.stat info.identity.path)

  serve_variant-IsWhole :
      (info : AssetInfo) (variant : AssetVariant) (encoding : Option Text)
      → IsWhole (serve_variant on asked info variant encoding).content
  unfolding serve_variant
  serve_variant-IsWhole info variant none =
      indexed_answer-IsWhole info variant (on.stat variant.path) (on.stat variant.path)
  serve_variant-IsWhole info variant (some e) =
      sibling_answer-IsWhole info variant (on.stat variant.path)

  serve_asset-IsWhole :
      (path : Text) (dev : Bool) (outputs : BuildOutputs)
      → IsWhole (serve_asset on asked path dev outputs).content
  unfolding serve_asset not_found send
  serve_asset-IsWhole path dev outputs = elim (Bool-cases (is_hidden_asset path)) [
    | inl hidden ↦ rw (hidden, serve_asset) tt
    | inr shown ↦ elim (Option-cases (on.stat path)) [
      | inl missing ↦ rw (shown, missing, serve_asset) tt
      | inr (base, there) ↦
          let sent = choose_sent on asked path base dev in
          rw (shown, there, serve_asset)
            (deliver-IsWhole _ (on.type_of path) sent.path sent.encoding sent.live)
    ]
  ]

  -- A request for a range under an If-Range is never answered with a file, of which the platform
  -- would send the range: not outside the index, nor from it, whatever the validator.
  pub serve-IsWhole :
      (path : Text) (dev : Bool) (outputs : BuildOutputs) (info : AssetInfo)
      → IsWhole (serve_asset on asked path dev outputs).content
        × IsWhole (serve_indexed on asked info).content
  unfolding serve_indexed
  serve-IsWhole path dev outputs info = (
    serve_asset-IsWhole path dev outputs,
    serve_variant-IsWhole info (negotiate on asked info) (negotiate on asked info).encoding,
  )
