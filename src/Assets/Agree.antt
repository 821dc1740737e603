-- ===== src/Assets/Agree.antt =====
-- A file answers alike from the index of packages/borgo/src/compress.ts (`serveIndexed`) and without
-- it (`serveAsset`).
pub mod Live
use borgo.Common.{
  ℕ, ◌≡◌, ◌≢◌, refl, sym, ap, ◌∙◌, subst, ◌⊎◌, Bool, true, false, List, [], ◌∷◌, ◌++◌, Option, none,
  some, is_empty, Bool-cases, Option-cases, inl, inr, arith, if◌then◌else◌, ◌&&◌, not,
}
use borgo.Text.{Text, codes, ◌===◌, ===_iff, listed}
use borgo.Params.{Params, get, put, get-put}
use borgo.Settings.Topology.{decimal_text}
use borgo.Maps.{Map, lookup}
use borgo.Assets.{
  Stat, BuildOutputs, pinned_size_for, pin_policy, asset_cache_control, is_compressible_path,
  is_hidden_asset,
}
use borgo.Assets.Encoding.{Weight, weights, is_accepted, first_accepted, pick_encoding, Takes}
use borgo.Assets.Validators.{asset_etag, is_not_modified, is_range_stale}
use borgo.Assets.Answers.{get-put_same, get-put_other, put_vary-keeps, put_encoding-keeps}
use borgo.Assets.Index.{asset_info, siblings, add_sibling, variant_of}
use borgo.Assets.Serve.{
  Platform, AssetVariant, AssetInfo, Answer, Representation, not_found, accepted_by, put_encoding,
  put_vary, find_variant, encoding_is, offered, encodings, sibling_of, or_base, deliver, negotiate,
  indexed_answer, sibling_answer, serve_variant, serve_indexed, sibling_or, choose_sent, send,
  serve_asset, etag_suffix,
}

-- Two answers that a client cannot tell apart: the order of the headers does not show.
pub record IsSame (a b : Answer) : Type 0 where
  pub status : a.status ≡ b.status
  pub headers : (name : Text) → get name a.headers ≡ get name b.headers
  pub content : a.content ≡ b.content

put_at :
    (key v name : Text) (a b : Params)
    → get name a ≡ get name b
    → get name (put key v a) ≡ get name (put key v b)
put_at key v name a b h =
    get-put key name v a
    ∙ ap (λ (o : Option Text). if key === name then some v else o) h
    ∙ sym (get-put key name v b)

put_vary_at :
    (compressible : Bool) (name : Text) (a b : Params)
    → get name a ≡ get name b
    → get name (put_vary compressible a) ≡ get name (put_vary compressible b)
unfolding put_vary
put_vary_at true name a b h = put_at (codes "vary") (codes "Accept-Encoding") name a b h
put_vary_at false name a b h = h

put_encoding_at :
    (encoding : Option Text) (content_type name : Text) (a b : Params)
    → get name a ≡ get name b
    → get name (put_encoding encoding content_type a)
      ≡ get name (put_encoding encoding content_type b)
unfolding put_encoding
put_encoding_at none content_type name a b h = h
put_encoding_at (some e) content_type name a b h =
    put_at (codes "content-type") content_type name (put (codes "content-encoding") e a)
      (put (codes "content-encoding") e b) (put_at (codes "content-encoding") e name a b h)

-- The two orders in which the headers are set.
pub headers-agree :
    (encoding : Option Text) (content_type policy : Text) (compressible : Bool) (name : Text)
    → get name (
        put_encoding encoding content_type
          (put_vary compressible (put (codes "cache-control") policy [])))
      ≡ get name (
          put
            (codes "cache-control")
            policy
            (put_encoding encoding content_type (put_vary compressible [])))
unfolding ◌===◌
headers-agree encoding content_type policy compressible name =
    elim (Bool-cases (name === codes "cache-control")) [
      | inl same ↦
          subst
            (λ (n : Text).
              get n (
                put_encoding encoding content_type
                  (put_vary compressible (put (codes "cache-control") policy [])))
              ≡ get n (
                  put (codes "cache-control") policy
                    (put_encoding encoding content_type (put_vary compressible []))))
            (sym ((===_iff name (codes "cache-control")).0 same))
            (put_encoding-keeps encoding content_type (codes "cache-control")
                (put_vary compressible (put (codes "cache-control") policy [])) refl refl
              ∙ put_vary-keeps compressible (codes "cache-control")
                  (put (codes "cache-control") policy []) refl
              ∙ get-put_same (codes "cache-control") policy []
              ∙ sym (
                  get-put_same (codes "cache-control") policy
                    (put_encoding encoding content_type (put_vary compressible []))))
      | inr other ↦
          put_encoding_at encoding content_type name
            (put_vary compressible (put (codes "cache-control") policy []))
            (put_vary compressible [])
            (put_vary_at compressible name (put (codes "cache-control") policy []) []
              (get-put_other (codes "cache-control") name policy [] other))
          ∙ sym (
              get-put_other (codes "cache-control") name policy
                (put_encoding encoding content_type (put_vary compressible [])) other)
    ]

if-IsSame :
    (b : Bool) (x y x' y' : Answer)
    → IsSame x x'
    → IsSame y y'
    → IsSame (if b then x else y) (if b then x' else y')
if-IsSame true x y x' y' h k = h
if-IsSame false x y x' y' h k = k

module _ (on : Platform) (asked : Params) where
  pub deliver-IsSame :
      (a b : Params) (content_type path : Text) (encoding : Option Text) (live : Stat)
      → ((name : Text) → get name a ≡ get name b)
      → IsSame
          (deliver on asked a content_type path encoding live)
          (deliver on asked b content_type path encoding live)
  unfolding deliver
  deliver-IsSame a b content_type path encoding live h =
      if-IsSame (is_not_modified on.parse_date asked etag live.modified) _ _ _ _
        record { status = refl; headers = validated; content = refl }
        (if-IsSame (is_range_stale asked etag) _ _ _ _
          record {
            status = refl;
            headers = λ name.
                put_at (codes "content-type") content_type name (measured_of a) (measured_of b)
                  (measured name);
            content = refl;
          }
          record { status = refl; headers = measured; content = refl })
    where
      etag : Text
      etag = asset_etag live.size live.modified (etag_suffix encoding)

      validated_of : Params → Params
      validated_of c =
          put (codes "last-modified") (on.utc live.modified) (put (codes "etag") etag c)

      measured_of : Params → Params
      measured_of c = put (codes "content-length") (decimal_text live.size) (validated_of c)

      validated : (name : Text) → get name (validated_of a) ≡ get name (validated_of b)
      validated name =
          put_at (codes "last-modified") (on.utc live.modified) name (put (codes "etag") etag a)
            (put (codes "etag") etag b) (put_at (codes "etag") etag name a b (h name))

      measured : (name : Text) → get name (measured_of a) ≡ get name (measured_of b)
      measured name =
          put_at (codes "content-length") (decimal_text live.size) name (validated_of a)
            (validated_of b) (validated name)

-- What a list of one encoding and the list of it and another pick.
pub data Picks (a b : Text) : Option Text → Option Text → Type 0 where
  first : Picks a b (some a) (some a)
  second : Picks a b none (some b)
  neither : Picks a b none none

pub pick_encoding-Picks :
    (number : Text → Weight) (accepted : Option Text) (a b : Text)
    → Picks a b
        (pick_encoding number accepted (a ∷ []))
        (pick_encoding number accepted (a ∷ b ∷ []))
unfolding pick_encoding first_accepted
pick_encoding-Picks number none a b = neither
pick_encoding-Picks number (some header) a b =
    given (is_empty header) (is_accepted number (weights number header) a)
      (is_accepted number (weights number header) b)
  where
    given :
        (blank takes_a takes_b : Bool)
        → Picks a b
            (if blank then none else if takes_a then some a else none)
            (if blank then none else if takes_a then some a else if takes_b then some b else none)
    given true takes_a takes_b = neither
    given false true takes_b = first
    given false false true = second
    given false false false = neither
