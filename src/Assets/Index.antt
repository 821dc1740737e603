-- ===== src/Assets/Index.antt =====
-- `buildAssetIndex`, `foldsCase` and `findAsset` of packages/borgo/src/compress.ts: the walk over the
-- public directory at boot, and the file that a url names.
pub mod Entries
use borgo.Common.{
  ℕ, ◌+◌, ◌-◌, Bool, true, false, ◌&&◌, ◌||◌, not, List, [], ◌∷◌, ◌++◌, map, Option, none, some,
  if◌then◌else◌, any, length, take, drop, ◌==◌,
}
use borgo.Text.{Text, codes, ◌===◌, is_alpha, within, to_lower, to_upper, listed}
use borgo.Maps.{Map, lookup, set}
use borgo.PublicPath.{in_hidden_directory}
use borgo.Assets.{
  Stat, BuildOutputs, drop_slashes, as_url, is_compressible_path, is_hidden_asset, pinned_size_for,
}
use borgo.Assets.Validators.{asset_etag}
use borgo.Assets.Serve.{AssetVariant, AssetInfo, Platform, etag_suffix}

-- an entry of the listing; `path` is the join of its directory and its name
pub record DirEntry : Type 0 where
  pub is_file : Bool
  pub path : Text
  pub name : Text

-- the index, with how its lookups fold (`foldingOf`)
pub record AssetIndex : Type 0 where
  pub entries : Map AssetInfo
  pub folds : Bool

-- `flipAscii`
abbrev flip_unit : ℕ → ℕ
flip_unit c = if within b'a' b'z' c then to_upper c else to_lower c

unfoldable pub flip_ascii : Text → Option Text
flip_ascii name = if any is_alpha name then some (map flip_unit name) else none

-- the text behind the last slash; `kept` is the one behind the last so far
behind_slash : Text → Text → Text
behind_slash kept [] = kept
behind_slash kept (c ∷ s) = behind_slash (if c == b'/' then s else kept) s

-- the path to ask the disk for: the last segment of this one with its letters flipped
unfoldable pub probe_of : Text → Option Text
unfolding flip_ascii behind_slash
probe_of path =
    let name = behind_slash path path in
    elim (flip_ascii name) [
      | none ↦ none
      | some other ↦ some (take (length path - length name) path ++ other)
    ]

unfoldable pub or_probe : Option Text → Text → Option Text
or_probe none path = probe_of path
or_probe (some probe) path = some probe

-- whether the walk takes an entry of the directory
unfoldable pub is_public : Text → DirEntry → Bool
unfolding as_url drop_slashes
is_public dir entry =
    entry.is_file
    && not (is_hidden_asset entry.name)
    && not (in_hidden_directory (drop (length (drop_slashes (as_url dir))) (as_url entry.path)))

unfoldable pub add_file : Text → Option Stat → Map Stat → Map Stat
add_file path none files = files
add_file path (some stat) files = set path stat files

unfoldable pub variant_of : BuildOutputs → Text → Option Text → Stat → AssetVariant
unfolding asset_etag pinned_size_for
variant_of outputs path encoding stat = record {
  path = path;
  encoding = encoding;
  etag = asset_etag stat.size stat.modified (etag_suffix encoding);
  size = stat.size;
  pinned_size = pinned_size_for path outputs;
}

unfoldable pub add_sibling :
    BuildOutputs → Text → Text → Option Stat → List AssetVariant → List AssetVariant
unfolding variant_of
add_sibling outputs path encoding none variants = variants
add_sibling outputs path encoding (some sibling) variants =
    variant_of outputs path (some encoding) sibling ∷ variants

unfoldable pub siblings : BuildOutputs → Map Stat → Text → List AssetVariant
unfolding add_sibling
siblings outputs files path =
    let br = path ++ codes ".br" in
    let gz = path ++ codes ".gz" in
    add_sibling outputs br (codes "br") (lookup br files)
      (add_sibling outputs gz (codes "gzip") (lookup gz files) [])

abbrev paths_of : Map Stat → List Text
paths_of [] = []
paths_of ((path, stat) ∷ files) = path ∷ paths_of files

-- `caseInsensitive ?? measured`
abbrev given_or : Option Bool → Bool → Bool
given_or none measured = measured
given_or (some given) measured = given

module _ (on : Platform) where
  unfoldable pub walk : Text → List DirEntry → Map Stat → Map Stat
  unfolding is_public add_file
  walk dir [] files = files
  walk dir (entry ∷ entries) files = walk dir entries (
      if is_public dir entry
      then add_file (as_url entry.path) (on.stat (as_url entry.path)) files
      else files)

  unfoldable pub asset_info : BuildOutputs → Map Stat → Text → Stat → AssetInfo
  unfolding siblings is_compressible_path variant_of
  asset_info outputs files path stat = record {
    identity = variant_of outputs path none stat;
    variants = if is_compressible_path path then siblings outputs files path else [];
    compressible = is_compressible_path path;
    last_modified = on.utc stat.modified;
    content_type = on.type_of path;
  }

module _ (on : Platform) (lower : Text → Text) (case_insensitive_fs : Bool) where
  abbrev is_there : Text → Bool
  is_there path = elim (on.stat path) [ none ↦ false | some stat ↦ true ]

  -- the rest of `foldsCase`, after the names `seen` and the first `probe`
  unfoldable pub folds_from : List Text → Option Text → List Text → Bool
  unfolding or_probe probe_of
  folds_from seen none [] = case_insensitive_fs
  folds_from seen (some probe) [] = is_there probe
  folds_from seen probe (path ∷ paths) =
      let rest = folds_from (lower path ∷ seen) (or_probe probe path) paths in
      if listed (lower path) seen then false else rest

  unfoldable pub folds_case : List Text → Bool
  unfolding folds_from
  folds_case paths = folds_from [] none paths

  -- `index.set(url, info)`, and the folded alias where no url has its place
  unfoldable pub add_entry : Bool → Text → AssetInfo → Map AssetInfo → Map AssetInfo
  add_entry folds url info index =
      let named = set url info index in
      let alias = lower url in
      if folds
        && not (alias === url)
        && not (elim (lookup alias named) [ none ↦ false | some i ↦ true ])
      then set alias info named
      else named

  unfoldable pub index_files :
      BuildOutputs → Map Stat → ℕ → Bool → Map Stat → Map AssetInfo → Map AssetInfo
  unfolding add_entry asset_info
  index_files outputs files base folds [] index = index
  index_files outputs files base folds ((path, stat) ∷ rest) index =
      index_files outputs files base folds rest
        (add_entry folds (drop base path) (asset_info on outputs files path stat) index)

  -- the index of a directory, of its listing where it can be read
  unfoldable pub build_asset_index :
      Text → Option Bool → BuildOutputs → Option (List DirEntry) → AssetIndex
  unfolding walk index_files folds_case
  build_asset_index dir case_insensitive outputs none = record {
    entries = [];
    folds = case_insensitive_fs;
  }
  build_asset_index dir case_insensitive outputs (some listing) =
      let files = walk on dir listing [] in
      let folds = given_or case_insensitive (folds_case (paths_of files)) in
      let base = length (drop_slashes (as_url dir)) in
      record { entries = index_files outputs files base folds files []; folds = folds }

-- `findAsset`
unfoldable pub find_asset : (Text → Text) → AssetIndex → Text → Option AssetInfo
find_asset lower index url = elim (lookup url index.entries) [
  | some info ↦ some info
  | none ↦ if index.folds then lookup (lower url) index.entries else none
]
