-- ===== src/Assets/Index/Entries.antt =====
-- What `buildAssetIndex` knows of each file in its index.
use borgo.Common.{
  ◌≡◌, refl, ◌∙◌, Bool, true, false, ◌&&◌, not, List, [], ◌∷◌, ◌++◌, Option, none, some, ◌⊎◌,
  Bool-cases, Option-cases, inl, inr, arith, All, if◌then◌else◌, drop, length,
}
use mathlib.Core.List.{Memᴰ}
use borgo.Text.{Text, codes, ◌===◌}
use borgo.Maps.{Map, lookup, set, All-set, All-lookup}
use borgo.Server.Reach.{none-not-some}
use borgo.PublicPath.{in_hidden_directory}
use borgo.Assets.{
  Stat, BuildOutputs, pinned_size_for, is_compressible_path, is_hidden_asset, as_url, drop_slashes,
}
use borgo.Assets.Serve.{Platform, AssetVariant, AssetInfo, sibling_of}
use borgo.Assets.Index.{
  DirEntry, AssetIndex, variant_of, add_sibling, siblings, asset_info, add_entry, index_files,
  build_asset_index, find_asset, walk, is_public, add_file,
}

-- A sibling of a file: the file of one encoding, with the length that the build recorded for it.
pub record IsSibling (outputs : BuildOutputs) (path : Text) (variant : AssetVariant) : Type 0 where
  pub encoding : Text
  pub encoded : variant.encoding ≡ some encoding
  pub named : variant.path ≡ sibling_of path encoding
  pub pinned : variant.pinned_size ≡ pinned_size_for variant.path outputs

-- An entry of an index: a file and its siblings, none where it is not compressible.
pub record IsEntry (outputs : BuildOutputs) (info : AssetInfo) : Type 0 where
  pub plain : info.identity.encoding ≡ none
  pub pinned : info.identity.pinned_size ≡ pinned_size_for info.identity.path outputs
  pub variants : All (IsSibling outputs info.identity.path) info.variants

module _ (outputs : BuildOutputs) where
  add_sibling-All :
      (path e : Text) (file : Text) (stat : Option Stat) (variants : List AssetVariant)
      → file ≡ sibling_of path e
      → All (IsSibling outputs path) variants
      → All (IsSibling outputs path) (add_sibling outputs file e stat variants)
  unfolding add_sibling variant_of
  add_sibling-All path e file none variants same h = h
  add_sibling-All path e file (some stat) variants same h =
      (record { encoding = e; encoded = refl; named = same; pinned = refl }, h)

  asset_info-IsEntry :
      (on : Platform) (files : Map Stat) (path : Text) (stat : Stat)
      → IsEntry outputs (asset_info on outputs files path stat)
  unfolding asset_info siblings variant_of ◌===◌
  asset_info-IsEntry on files path stat = record {
    plain = refl;
    pinned = refl;
    variants = both (is_compressible_path path);
  }
    where
      both :
          (b : Bool) → All (IsSibling outputs path) (if b then siblings outputs files path else [])
      both false = tt
      both true =
          add_sibling-All path (codes "br") (path ++ codes ".br")
            (lookup (path ++ codes ".br") files) _ refl
            (add_sibling-All path (codes "gzip") (path ++ codes ".gz")
              (lookup (path ++ codes ".gz") files) [] refl tt)

-- A file that the walk over a directory took.
pub record IsWalked (on : Platform) (dir : Text) (listing : List DirEntry) (path : Text)
    (stat : Stat) : Type 0 where
  pub entry : DirEntry
  pub listed : Memᴰ entry listing
  pub named : as_url entry.path ≡ path
  pub regular : entry.is_file ≡ true
  pub no_dot : is_hidden_asset entry.name ≡ false
  pub in_sight : in_hidden_directory (drop (length (drop_slashes (as_url dir))) path) ≡ false
  pub there : on.stat path ≡ some stat

-- An entry of the index under its url: a file that the walk took, named by its path below the
-- directory, or by the folded form of that where lookups fold.
pub record IsIndexed (on : Platform) (lower : Text → Text) (outputs : BuildOutputs) (dir : Text)
    (listing : List DirEntry) (folds : Bool) (url : Text) (info : AssetInfo) : Type 0 where
  pub stat : Stat
  pub walked : IsWalked on dir listing info.identity.path stat
  pub entry : IsEntry outputs info
  pub found_by :
      (url ≡ drop (length (drop_slashes (as_url dir))) info.identity.path)
      ⊎ ((folds ≡ true)
          × (url ≡ lower (drop (length (drop_slashes (as_url dir))) info.identity.path)))

module _ (on : Platform) (dir : Text) (listing : List DirEntry) where
  add_file-All :
      (entry : DirEntry) (files : Map Stat)
      → Memᴰ entry listing
      → is_public dir entry ≡ true
      → All (λ (f : Text × Stat). IsWalked on dir listing f.0 f.1) files
      → (stat : Option Stat) → on.stat (as_url entry.path) ≡ stat
      → All
          (λ (f : Text × Stat). IsWalked on dir listing f.0 f.1)
          (add_file (as_url entry.path) stat files)
  unfolding add_file is_public
  add_file-All entry files member taken h none there = h
  add_file-All entry files member taken h (some stat) there =
      let ((regular, no_dot), in_sight) =
        three entry.is_file (is_hidden_asset entry.name)
          (in_hidden_directory (drop (length (drop_slashes (as_url dir))) (as_url entry.path)))
          taken in
      All-set (IsWalked on dir listing) (as_url entry.path) stat files
        record {
          entry = entry;
          listed = member;
          named = refl;
          regular = regular;
          no_dot = no_dot;
          in_sight = in_sight;
          there = there;
        }
        h
    where
      three :
          (a b c : Bool) → (a && not b && not c) ≡ true → ((a ≡ true) × (b ≡ false)) × (c ≡ false)
      three a b c e = ground arith

  walk-All :
      (entries : List DirEntry) (files : Map Stat)
      → ((entry : DirEntry) → Memᴰ entry entries → Memᴰ entry listing)
      → All (λ (f : Text × Stat). IsWalked on dir listing f.0 f.1) files
      → All (λ (f : Text × Stat). IsWalked on dir listing f.0 f.1) (walk on dir entries files)
  unfolding walk
  walk-All [] files within h = h
  walk-All (entry ∷ entries) files within h = elim (Bool-cases (is_public dir entry)) [
    | inr passed ↦ rw passed (walk-All entries files (λ e m. within e (Memᴰ.tail m)) h)
    | inl taken ↦ rw taken (
        walk-All entries (add_file (as_url entry.path) (on.stat (as_url entry.path)) files)
          (λ e m. within e (Memᴰ.tail m))
          (add_file-All entry files (within entry (Memᴰ.head refl)) taken h
            (on.stat (as_url entry.path)) refl))
  ]

if-All :
    {A : Type 0} (P : A → Type 0) (b : Bool) (xs ys : List A)
    → (b ≡ true → All P xs)
    → All P ys
    → All P (if b then xs else ys)
if-All P true xs ys f h = f refl
if-All P false xs ys f h = h

module _ (on : Platform) (lower : Text → Text) (case_insensitive_fs : Bool) (outputs : BuildOutputs)
    (dir : Text) (listing : List DirEntry) (folds : Bool) where
  abbrev Indexed : Text → AssetInfo → Type 0
  Indexed = IsIndexed on lower outputs dir listing folds

  add_entry-All :
      (url : Text) (info : AssetInfo) (index : Map AssetInfo)
      → Indexed url info
      → ((folds ≡ true) → Indexed (lower url) info)
      → All (λ (e : Text × AssetInfo). Indexed e.0 e.1) index
      → All
          (λ (e : Text × AssetInfo). Indexed e.0 e.1)
          (add_entry on lower case_insensitive_fs folds url info index)
  unfolding add_entry
  add_entry-All url info index named alias h =
      if-All (λ (e : Text × AssetInfo). Indexed e.0 e.1) (folds && rest && fresh)
        (set (lower url) info there) there
        (λ e. All-set Indexed (lower url) info there (alias (first_of folds rest fresh e)) with_url)
        with_url
    where
      there : Map AssetInfo
      there = set url info index

      with_url : All (λ (e : Text × AssetInfo). Indexed e.0 e.1) there
      with_url = All-set Indexed url info index named h

      rest : Bool
      rest = not (lower url === url)

      fresh : Bool
      fresh = not (elim (lookup (lower url) there) [ none ↦ false | some i ↦ true ])

      first_of : (a b c : Bool) → (a && b && c) ≡ true → a ≡ true
      first_of a b c e = ground arith

  index_files-All :
      (files rest : Map Stat) (index : Map AssetInfo)
      → All (λ (f : Text × Stat). IsWalked on dir listing f.0 f.1) rest
      → All (λ (e : Text × AssetInfo). Indexed e.0 e.1) index
      → All
          (λ (e : Text × AssetInfo). Indexed e.0 e.1)
          (index_files on lower case_insensitive_fs outputs files
            (length (drop_slashes (as_url dir)))
            folds
            rest
            index)
  unfolding index_files
  index_files-All files [] index w h = h
  index_files-All files ((path, stat) ∷ rest) index (walked, w) h =
      let url = drop (length (drop_slashes (as_url dir))) path in
      index_files-All files rest
        (add_entry on lower case_insensitive_fs folds url (asset_info on outputs files path stat)
          index)
        w
        (add_entry-All url (asset_info on outputs files path stat) index
          record {
            stat = stat;
            walked = walked;
            entry = asset_info-IsEntry outputs on files path stat;
            found_by = inl refl;
          }
          (λ e. record {
            stat = stat;
            walked = walked;
            entry = asset_info-IsEntry outputs on files path stat;
            found_by = inr (e, refl);
          })
          h)

find_asset-lookup :
    (lower : Text → Text) (index : AssetIndex) (url : Text) {info : AssetInfo}
    → find_asset lower index url ≡ some info
    → (lookup url index.entries ≡ some info)
      ⊎ ((index.folds ≡ true) × (lookup (lower url) index.entries ≡ some info))
unfolding find_asset
find_asset-lookup lower index url h = elim (Option-cases (lookup url index.entries)) [
  | inr (found, e) ↦ inl (e ∙ rw (e, find_asset) at h)
  | inl missing ↦ elim (Bool-cases index.folds) [
    | inl folding ↦ inr (folding, rw (missing, folding, find_asset) at h)
    | inr exact ↦ absurd (none-not-some (rw (missing, exact, find_asset) at h))
  ]
]

module _ (on : Platform) (lower : Text → Text) (case_insensitive_fs : Bool) (outputs : BuildOutputs)
    (dir : Text) (case_insensitive : Option Bool) (listing : List DirEntry) where
  abbrev pub built : AssetIndex
  built = build_asset_index on lower case_insensitive_fs dir case_insensitive outputs (some listing)

  -- A url finds only a regular file of the listing that is on the disk, whose name starts with no dot
  -- and lies in no hidden directory: the one at that url or, where lookups fold, one whose path below
  -- the directory is the folded url, or folds to the url or to the folded url.
  pub find_asset-IsIndexed :
      (url : Text) {info : AssetInfo}
      → find_asset lower built url ≡ some info
      → IsIndexed on lower outputs dir listing built.folds url info
        ⊎ ((built.folds ≡ true)
            × IsIndexed on lower outputs dir listing built.folds (lower url) info)
  unfolding build_asset_index
  find_asset-IsIndexed url {info} h = elim (find_asset-lookup lower built url h) [
    | inl e ↦ inl (All-lookup Indexed_here url built.entries all_known e)
    | inr (folding, e) ↦
        inr (folding, All-lookup Indexed_here (lower url) built.entries all_known e)
  ]
    where
      Indexed_here : Text → AssetInfo → Type 0
      Indexed_here = IsIndexed on lower outputs dir listing built.folds

      all_known : All (λ (e : Text × AssetInfo). Indexed_here e.0 e.1) built.entries
      all_known =
          index_files-All on lower case_insensitive_fs outputs dir listing built.folds
            (walk on dir listing []) (walk on dir listing []) []
            (walk-All on dir listing listing [] (λ e m. m) tt) tt
