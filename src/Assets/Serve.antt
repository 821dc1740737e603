-- ===== src/Assets/Serve.antt =====
-- `serveIndexed` and `serveAsset` of packages/borgo/src/compress.ts: the answer to a request for a
-- file.
use borgo.Common.{
  ℕ, Bool, false, ◌&&◌, not, List, [], ◌∷◌, ◌++◌, Option, none, some, is_empty, if◌then◌else◌, any,
}
use borgo.Text.{Text, codes, ◌===◌}
use borgo.Params.{Params, get, put}
use borgo.Responses.{Response}
use borgo.Settings.Topology.{decimal_text}
use borgo.Assets.{
  Stat, BuildOutputs, is_compressible_path, is_hidden_asset, pin_policy, asset_cache_control,
}
use borgo.Assets.Encoding.{Weight, pick_encoding}
use borgo.Assets.Validators.{asset_etag, is_not_modified, is_range_stale}

-- What the answers ask of the platform: the disk while one request is answered, `Number`,
-- `Date.parse`, `toUTCString` and the type that `Bun.file` gives a path.
pub record Platform : Type 0 where
  pub stat : Text → Option Stat
  pub number : Text → Weight
  pub parse_date : Text → Option ℕ
  pub utc : ℕ → Text
  pub type_of : Text → Text

-- what a response holds: nothing, a message, the bytes of a file in memory, or the file, of which the
-- platform sends the range that the request asks for
pub data Content : Type 0 where
  nothing : Content
  message in_memory file_of : Text → Content

pub record AssetVariant : Type 0 where
  pub path : Text
  pub encoding : Option Text
  pub etag : Text
  pub size : ℕ
  pub pinned_size : Option ℕ

pub record AssetInfo : Type 0 where
  pub identity : AssetVariant
  pub variants : List AssetVariant
  pub compressible : Bool
  pub last_modified : Text
  pub content_type : Text

abbrev pub Answer : Type 0
Answer = Response Content

unfoldable pub not_found : Answer
not_found = record {
  status = 404;
  headers = [];
  set_cookies = [];
  content = message (codes "not found");
}

abbrev pub accepted_by : Params → Option Text
accepted_by asked = get (codes "accept-encoding") asked

-- `-${encoding}`, or nothing
abbrev pub etag_suffix : Option Text → Text
etag_suffix none = []
etag_suffix (some e) = b'-' ∷ e

unfoldable pub put_encoding : Option Text → Text → Params → Params
put_encoding none content_type headers = headers
put_encoding (some e) content_type headers =
    put (codes "content-type") content_type (put (codes "content-encoding") e headers)

unfoldable pub put_vary : Bool → Params → Params
put_vary compressible headers =
    if compressible then put (codes "vary") (codes "Accept-Encoding") headers else headers

unfoldable pub encoding_is : Text → AssetVariant → Bool
encoding_is e variant = elim variant.encoding [ none ↦ false | some f ↦ f === e ]

-- `variants.find((v) => v.encoding === encoding) ?? variant`
unfoldable pub find_variant : Text → AssetVariant → List AssetVariant → AssetVariant
find_variant e identity [] = identity
find_variant e identity (v ∷ variants) =
    let rest = find_variant e identity variants in if encoding_is e v then v else rest

unfoldable pub offered : List AssetVariant → List Text → List Text
offered variants [] = []
offered variants (e ∷ es) =
    let rest = offered variants es in if any (encoding_is e) variants then e ∷ rest else rest

abbrev pub encodings : List Text
encodings = codes "br" ∷ codes "gzip" ∷ []

abbrev pub sibling_of : Text → Text → Text
sibling_of path e = path ++ (if e === codes "br" then codes ".br" else codes ".gz")

-- a file that answers: its path, its encoding and what the disk says of it
pub record Representation : Type 0 where
  pub path : Text
  pub encoding : Option Text
  pub live : Stat

-- the sibling where it is there, else the file itself
unfoldable pub or_base : Text → Text → Option Text → Stat → Option Stat → Representation
or_base path sibling_path encoding base none = record { path = path; encoding = none; live = base }
or_base path sibling_path encoding base (some sibling) = record {
  path = sibling_path;
  encoding = encoding;
  live = sibling;
}

module _ (on : Platform) where
  -- what both do behind the negotiation: the validators of the file that is sent, then a 304, the
  -- bytes in memory, or the file
  unfoldable pub deliver : Params → Params → Text → Text → Option Text → Stat → Answer
  deliver asked headers content_type path encoding live =
      let etag = asset_etag live.size live.modified (etag_suffix encoding) in
      let validated =
        put (codes "last-modified") (on.utc live.modified) (put (codes "etag") etag headers) in
      let measured = put (codes "content-length") (decimal_text live.size) validated in
      if is_not_modified on.parse_date asked etag live.modified
      then record { status = 304; headers = validated; set_cookies = []; content = nothing }
      else if is_range_stale asked etag
      then record {
        status = 200;
        headers = put (codes "content-type") content_type measured;
        set_cookies = [];
        content = in_memory path;
      }
      else record { status = 200; headers = measured; set_cookies = []; content = file_of path }

  unfoldable pub negotiate : Params → AssetInfo → AssetVariant
  unfolding offered find_variant encoding_is
  negotiate asked info =
      if is_empty info.variants
      then info.identity
      else elim (pick_encoding on.number (accepted_by asked) (offered info.variants encodings)) [
        | none ↦ info.identity
        | some e ↦ find_variant e info.identity info.variants
      ]

  unfoldable pub indexed_answer :
      Params → AssetInfo → AssetVariant → Option Stat → Option Stat → Answer
  unfolding not_found deliver put_encoding put_vary
  indexed_answer asked info variant none identity = not_found
  indexed_answer asked info variant (some live) none = not_found
  indexed_answer asked info variant (some live) (some identity) =
      let policy =
        pin_policy variant.pinned_size (some live.size) info.identity.pinned_size
          (some identity.size) in
      let headers =
        put_encoding variant.encoding info.content_type
          (put_vary info.compressible (put (codes "cache-control") policy [])) in
      deliver asked headers info.content_type variant.path variant.encoding live

  -- the answer of a sibling: the file of the identity where the sibling has gone
  unfoldable pub sibling_answer : Params → AssetInfo → AssetVariant → Option Stat → Answer
  unfolding indexed_answer
  sibling_answer asked info variant none =
      indexed_answer asked info info.identity (on.stat info.identity.path)
        (on.stat info.identity.path)
  sibling_answer asked info variant (some live) =
      indexed_answer asked info variant (some live) (on.stat info.identity.path)

  -- the answer of a variant, by the encoding that it has
  unfoldable pub serve_variant : Params → AssetInfo → AssetVariant → Option Text → Answer
  unfolding sibling_answer indexed_answer
  serve_variant asked info variant none =
      indexed_answer asked info variant (on.stat variant.path) (on.stat variant.path)
  serve_variant asked info variant (some e) =
      sibling_answer asked info variant (on.stat variant.path)

  unfoldable pub serve_indexed : Params → AssetInfo → Answer
  unfolding serve_variant negotiate
  serve_indexed asked info =
      let variant = negotiate asked info in serve_variant asked info variant variant.encoding

  unfoldable pub sibling_or : Text → Stat → Option Text → Representation
  unfolding or_base
  sibling_or path base none = or_base path path none base none
  sibling_or path base (some e) =
      or_base path (sibling_of path e) (some e) base (on.stat (sibling_of path e))

  unfoldable pub choose_sent : Params → Text → Stat → Bool → Representation
  unfolding sibling_or
  choose_sent asked path base dev = sibling_or path base (
      if is_compressible_path path && not dev
      then pick_encoding on.number (accepted_by asked) encodings
      else none)

  unfoldable pub send : Params → Text → BuildOutputs → Stat → Representation → Answer
  unfolding deliver put_encoding put_vary
  send asked path outputs base sent =
      let policy =
        asset_cache_control sent.path outputs (some sent.live.size) path (some base.size) in
      let headers =
        put (codes "cache-control") policy (
          put_encoding sent.encoding (on.type_of path) (put_vary (is_compressible_path path) [])) in
      deliver asked headers (on.type_of path) sent.path sent.encoding sent.live

  unfoldable pub serve_asset : Params → Text → Bool → BuildOutputs → Answer
  unfolding not_found send choose_sent
  serve_asset asked path dev outputs =
      if is_hidden_asset path then not_found else elim (on.stat path) [
        | none ↦ not_found
        | some base ↦ send asked path outputs base (choose_sent asked path base dev)
      ]
