-- ===== src/Assets.antt =====
-- Public files, packages/borgo/src/compress.ts: what a path says of its file, and who may keep it.
pub mod Encoding
pub mod Validators
pub mod Serve
pub mod Index
pub mod Pinned
pub mod Answers
pub mod Served
pub mod Agree
pub mod Ranges
use borgo.Common.{
  ℕ, suc, Bool, true, false, ◌&&◌, ◌||◌, not, List, [], ◌∷◌, ◌++◌, map, Option, none, some,
  is_empty, if◌then◌else◌, ◌==◌, length, drop, any,
}
use borgo.Text.{Text, codes, ◌===◌, has_prefix, includes, to_lower, starts_with}

-- `s.endsWith(suffix)`
unfoldable pub has_suffix : Text → Text → Bool
has_suffix suffix [] = suffix === []
has_suffix suffix (c ∷ s) = suffix === (c ∷ s) || has_suffix suffix s

-- `s.replace(/\/+$/, "")`
unfoldable pub drop_slashes : Text → Text
drop_slashes [] = []
drop_slashes (c ∷ s) =
    let rest = drop_slashes s in if c == b'/' && is_empty rest then [] else c ∷ rest

-- `compressibleRe`
abbrev pub compressible_extensions : List Text
compressible_extensions = map codes (
    ".js" ∷ ".mjs" ∷ ".css" ∷ ".html" ∷ ".htm" ∷ ".svg" ∷ ".json" ∷ ".map" ∷ ".txt" ∷ ".xml"
    ∷ ".webmanifest" ∷ [])

unfoldable pub is_compressible_path : Text → Bool
unfolding has_suffix
is_compressible_path path =
    any (λ extension. has_suffix extension (map to_lower path)) compressible_extensions

abbrev is_separator : ℕ → Bool
is_separator c = c == b'/' || c == b'\\'

-- the text behind the last separator; `kept` is the one behind the last so far
unfoldable pub file_name_from : Text → Text → Text
file_name_from kept [] = kept
file_name_from kept (c ∷ s) = file_name_from (if is_separator c then s else kept) s

unfoldable pub is_hidden_asset : Text → Bool
unfolding file_name_from
is_hidden_asset path = starts_with b'.' (file_name_from path path)

-- what `stat` tells of a file: its length, and its time in whole milliseconds, which is all that is
-- read of `mtimeMs`
pub record Stat : Type 0 where
  pub size : ℕ
  pub modified : ℕ

-- where a build wrote, and the length of each output whose name carries its content hash
pub record BuildOutputs : Type 0 where
  pub dir : Text
  pub sizes : Text → Option ℕ

unfoldable pub no_build_outputs : BuildOutputs
no_build_outputs = record { dir = []; sizes = λ name. none }

abbrev pub immutable : Text
immutable = codes "public, max-age=31536000, immutable"

-- `asUrl`
unfoldable pub as_url : Text → Text
as_url path = map (λ c. if c == b'\\' then b'/' else c) path

unfoldable pub is_service_worker : Text → Bool
unfolding has_suffix
is_service_worker url = url === codes "public/sw.js" || has_suffix (codes "/public/sw.js") url

unfoldable pub recorded_size : Text → BuildOutputs → Option ℕ
unfolding as_url drop_slashes
recorded_size path outputs =
    let dir = drop_slashes (as_url outputs.dir) in
    let url = as_url path in
    let name = drop (suc (length dir)) url in
    if is_empty dir
      || not (has_prefix (dir ++ codes "/") url)
      || is_empty name
      || includes b'/' name
    then none
    else outputs.sizes name

unfoldable pub pinned_size_for : Text → BuildOutputs → Option ℕ
unfolding recorded_size is_service_worker
pinned_size_for path outputs =
    if is_service_worker (as_url path) then none else recorded_size path outputs

unfoldable pub is_vouched : Option ℕ → Option ℕ → Bool
is_vouched none size = false
is_vouched (some pinned) none = false
is_vouched (some pinned) (some size) = pinned == size

-- `pinPolicy`, of the pinned and the present length of the file sent and of the identity
unfoldable pub pin_policy : Option ℕ → Option ℕ → Option ℕ → Option ℕ → Text
unfolding is_vouched
pin_policy sent sent_size identity identity_size =
    if is_vouched sent sent_size && is_vouched identity identity_size
    then immutable
    else codes "no-cache"

-- `assetCacheControl`, of the file sent and of the identity behind it
unfoldable pub asset_cache_control : Text → BuildOutputs → Option ℕ → Text → Option ℕ → Text
unfolding pin_policy pinned_size_for
asset_cache_control sent_path outputs sent_size path size =
    pin_policy (pinned_size_for sent_path outputs) sent_size (pinned_size_for path outputs) size
