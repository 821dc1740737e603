-- ===== src/Assets/Answers.antt =====
-- What an answer of packages/borgo/src/compress.ts holds and which headers it carries, whatever the
-- validators say.
use borgo.Common.{
  ◌≡◌, refl, ◌∙◌, Bool, true, false, List, [], ◌∷◌, Option, none, some, Bool-cases, inl, inr, arith,
}
use borgo.Text.{Text, codes, ◌===◌, ===_iff, listed}
use borgo.Params.{Params, get, put, get-put}
use borgo.Assets.{Stat}
use borgo.Assets.Validators.{asset_etag, is_not_modified, is_range_stale}
use borgo.Assets.Serve.{
  Platform, Content, nothing, message, in_memory, file_of, deliver, put_vary, put_encoding,
  etag_suffix,
}
use borgo.Settings.Topology.{decimal_text}

-- A content with no bytes but those of the file at a path.
abbrev pub Holds : Text → Content → Type 0
Holds path nothing = Unit
Holds path (message m) = ⊥
Holds path (in_memory p) = p ≡ path
Holds path (file_of p) = p ≡ path

-- the headers that an answer sets behind the negotiation
abbrev pub late_headers : List Text
late_headers =
    codes "etag" ∷ codes "last-modified" ∷ codes "content-length" ∷ codes "content-type" ∷ []

pub get-put_other :
    (name other v : Text) (headers : Params)
    → (other === name) ≡ false
    → get other (put name v headers) ≡ get other headers
get-put_other name other v headers h =
    ground (arith, get-put name other v headers, ===_iff name other, ===_iff other name)

pub get-put_same : (name v : Text) (headers : Params) → get name (put name v headers) ≡ some v
get-put_same name v headers = get-put name name v headers ∙ rw same refl
  where
    same : (name === name) ≡ true
    same = ground (arith, ===_iff name name)

pub put_vary-keeps :
    (compressible : Bool) (name : Text) (headers : Params)
    → (name === codes "vary") ≡ false
    → get name (put_vary compressible headers) ≡ get name headers
unfolding put_vary
put_vary-keeps true name headers h =
    get-put_other (codes "vary") name (codes "Accept-Encoding") headers h
put_vary-keeps false name headers h = refl

pub put_encoding-keeps :
    (encoding : Option Text) (content_type name : Text) (headers : Params)
    → (name === codes "content-type") ≡ false
    → (name === codes "content-encoding") ≡ false
    → get name (put_encoding encoding content_type headers) ≡ get name headers
unfolding put_encoding
put_encoding-keeps none content_type name headers t e = refl
put_encoding-keeps (some f) content_type name headers t e =
    get-put_other (codes "content-type") name content_type _ t
    ∙ get-put_other (codes "content-encoding") name f headers e

pub put_encoding-get :
    (encoding : Option Text) (content_type : Text) (headers : Params)
    → get (codes "content-encoding") headers ≡ none
    → get (codes "content-encoding") (put_encoding encoding content_type headers) ≡ encoding
unfolding put_encoding ◌===◌
put_encoding-get none content_type headers h = h
put_encoding-get (some f) content_type headers h =
    get-put_other (codes "content-type") (codes "content-encoding") content_type _ refl
    ∙ get-put_same (codes "content-encoding") f headers

module _ (on : Platform) (asked headers : Params) (content_type path : Text)
    (encoding : Option Text) (live : Stat) where
  etag : Text
  etag = asset_etag live.size live.modified (etag_suffix encoding)

  pub deliver-Holds : Holds path (deliver on asked headers content_type path encoding live).content
  unfolding deliver etag
  deliver-Holds = elim (Bool-cases (is_not_modified on.parse_date asked etag live.modified)) [
    | inl same ↦ rw same tt
    | inr changed ↦ elim (Bool-cases (is_range_stale asked etag)) [
      | inl stale ↦ rw (changed, stale) refl
      | inr fresh ↦ rw (changed, fresh) refl
    ]
  ]

  pub deliver-keeps :
      (name : Text)
      → listed name late_headers ≡ false
      → get name (deliver on asked headers content_type path encoding live).headers
        ≡ get name headers
  unfolding deliver etag listed
  deliver-keeps name h =
      elim (Bool-cases (is_not_modified on.parse_date asked etag live.modified)) [
        | inl same ↦ rw same validated
        | inr changed ↦ elim (Bool-cases (is_range_stale asked etag)) [
          | inl stale ↦
              rw (changed, stale)
                (get-put_other (codes "content-type") name content_type _ (ground arith) ∙ measured)
          | inr fresh ↦ rw (changed, fresh) measured
        ]
      ]
    where
      tagged : Params
      tagged = put (codes "etag") etag headers

      dated : Params
      dated = put (codes "last-modified") (on.utc live.modified) tagged

      validated : get name dated ≡ get name headers
      validated =
          get-put_other (codes "last-modified") name (on.utc live.modified) tagged (ground arith)
          ∙ get-put_other (codes "etag") name etag headers (ground arith)

      measured :
          get name (put (codes "content-length") (decimal_text live.size) dated) ≡ get name headers
      measured =
          get-put_other (codes "content-length") name (decimal_text live.size) dated (ground arith)
          ∙ validated
