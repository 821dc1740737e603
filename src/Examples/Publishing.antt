-- ===== src/Examples/Publishing.antt =====
-- Public files on a small disk.
use borgo.Common.{
  ℕ, ◌≡◌, ◌≢◌, ◌↔◌, refl, ◌⊎◌, true, false, List, [], ◌∷◌, map, none, some, if◌then◌else◌, arith,
}
use borgo.Text.{
  Text, codes, ◌===◌, to_lower, has_prefix, split, trim, trim_start, trim_end, is_space, listed,
}
use borgo.Params.{Params, get, put}
use borgo.Maps.{Map, lookup, set}
use borgo.Settings.Topology.{decimal_text, decimal_from}
use borgo.PublicPath.{in_hidden_directory, hidden_between}
use borgo.Assets.{
  Stat, BuildOutputs, has_suffix, drop_slashes, is_compressible_path, file_name_from,
  is_hidden_asset, as_url, is_service_worker, recorded_size, pinned_size_for, is_vouched,
  pin_policy, asset_cache_control, no_build_outputs,
}
use borgo.Assets.Encoding.{
  Weight, at_most_zero, above_zero, weight_of, weigh_parts, weights, weight_for, is_accepted,
  first_accepted, pick_encoding,
}
use borgo.Assets.Validators.{
  digit36, base36_from, base36, asset_etag, is_weak, strong, is_since, is_not_modified, has_header,
  is_range_stale,
}
use borgo.Assets.Validators.Tags.{is_not_modified-asset_etag}
use borgo.Assets.Serve.{
  Platform, file_of, AssetInfo, not_found, put_encoding, put_vary, encoding_is, find_variant,
  offered, or_base, deliver, negotiate, indexed_answer, sibling_answer, serve_variant,
  serve_indexed, sibling_or, choose_sent, send, serve_asset,
}
use borgo.Assets.Index.{
  DirEntry, AssetIndex, flip_ascii, probe_of, or_probe, is_public, add_file, walk, variant_of,
  add_sibling, siblings, asset_info, folds_from, folds_case, add_entry, index_files,
  build_asset_index, find_asset,
}
use borgo.Assets.Index.Entries.{IsIndexed, built, find_asset-IsIndexed}
use borgo.Assets.Served.{IsSent, serve_asset-IsSent}
use borgo.Assets.Served.Indexed.{serve_indexed-IsSent}
use borgo.Assets.Agree.{IsSame}
use borgo.Assets.Agree.Live.{serve_indexed-IsSame}
use borgo.Assets.Ranges.{IsWhole, serve-IsWhole}

publishing : Unit {0}
unfolding ◌===◌ has_prefix split trim trim_start trim_end is_space listed get put lookup set
    decimal_text decimal_from in_hidden_directory hidden_between has_suffix drop_slashes
    is_compressible_path file_name_from is_hidden_asset as_url is_service_worker recorded_size
    pinned_size_for is_vouched pin_policy asset_cache_control no_build_outputs weight_of weigh_parts
    weights weight_for is_accepted first_accepted pick_encoding digit36 base36_from base36
    asset_etag is_weak strong is_since is_not_modified has_header is_range_stale not_found
    put_encoding put_vary encoding_is find_variant offered or_base deliver negotiate indexed_answer
    sibling_answer serve_variant serve_indexed sibling_or choose_sent send serve_asset flip_ascii
    probe_of or_probe is_public add_file walk variant_of add_sibling siblings asset_info folds_from
    folds_case add_entry index_files build_asset_index find_asset
publishing = tt

abbrev script_path : Text
script_path = codes "/p/assets/a.js"

abbrev disk : Map Stat
disk =
    (script_path, record { size = 40; modified = 5000 })
    ∷ ((codes "/p/assets/a.js.br", record { size = 18; modified = 5000 })
        ∷ ((codes "/p/assets/a.js.gz", record { size = 20; modified = 6000 }) ∷ []))

abbrev number : Text → Weight
number s = if s === codes "0" then at_most_zero else above_zero

abbrev on : Platform
on = record {
  stat = λ path. lookup path disk;
  number = number;
  parse_date = λ s. none;
  utc = λ n. decimal_text n;
  type_of = λ path. codes "text/javascript";
}

abbrev outputs : BuildOutputs
outputs = record {
  dir = codes "/p/assets/";
  sizes = λ name.
      if name === codes "a.js"
      then some 40
      else if name === codes "a.js.br"
      then some 18
      else if name === codes "a.js.gz"
      then some 19
      else none;
}

abbrev lower : Text → Text
lower s = map to_lower s

abbrev entry_at : Text → Text → DirEntry
entry_at path name = record { is_file = true; path = path; name = name }

abbrev listing : List DirEntry
listing =
    entry_at script_path (codes "a.js")
    ∷ (entry_at (codes "/p/assets/a.js.br") (codes "a.js.br")
        ∷ (entry_at (codes "/p/assets/a.js.gz") (codes "a.js.gz")
            ∷ (entry_at (codes "/p/assets/.env") (codes ".env") ∷ [])))

abbrev index : AssetIndex
index = built on lower false outputs (codes "/p") none listing

abbrev script : AssetInfo
script = asset_info on outputs disk script_path record { size = 40; modified = 5000 }

abbrev url : Text
url = codes "/assets/a.js"

abbrev asks : Text → Params
asks accepted = (codes "accept-encoding", accepted) ∷ []

encoding_tests :
    (pick_encoding number (some (codes "br;q=0, gzip")) (codes "br" ∷ codes "gzip" ∷ [])
      ≡ some (codes "gzip"))
    × (pick_encoding number (some (codes "gzip;Q=0")) (codes "gzip" ∷ []) ≡ none)
    × (pick_encoding number (some (codes "*")) (codes "br" ∷ []) ≡ some (codes "br"))
    × (pick_encoding number (some (codes "*;q=0, br")) (codes "gzip" ∷ codes "br" ∷ [])
        ≡ some (codes "br"))
unfolding publishing
encoding_tests = (refl, refl, refl, refl)

path_tests :
    (is_hidden_asset (codes "/p/.git/x") ≡ false)
    × (is_hidden_asset (codes "/p\\.env") ≡ true)
    × (recorded_size (codes "/p/assets/a.js") outputs ≡ some 40)
    × (recorded_size (codes "/q/assets/a.js") outputs ≡ none)
    × (recorded_size (codes "/p/assets/deep/a.js") outputs ≡ none)
    × (asset_etag 40 5000 (codes "-br") ≡ codes "W/\"14-3uw-br\"")
    × (probe_of (codes "/P/a1.JS") ≡ some (codes "/P/A1.js"))
unfolding publishing
path_tests = (refl, refl, refl, refl, refl, refl, refl)

serve_tests :
    ((serve_asset on (asks (codes "br, gzip")) script_path false outputs).content
      ≡ file_of (codes "/p/assets/a.js.br"))
    × (get (codes "cache-control") (serve_indexed on (asks (codes "br")) script).headers
        ≡ some (codes "public, max-age=31536000, immutable"))
    × (get (codes "cache-control") (serve_indexed on (asks (codes "gzip")) script).headers
        ≡ some (codes "no-cache"))
    × (find_asset lower index (codes "/assets/.env") ≡ none)
    × ((serve_asset on [] (codes "/p/b.js") false outputs).status ≡ 404)
unfolding publishing
serve_tests = (refl, refl, refl, refl, refl)

-- without the .br, "br, gzip" has the .gz from the index and the file itself outside it
abbrev without_br : Platform
without_br = record on {
  stat = λ path. if path === codes "/p/assets/a.js.br" then none else lookup path disk;
}

gzip_only_test :
    ((serve_indexed without_br (asks (codes "br, gzip")) (
        asset_info without_br outputs
          ((codes "/p/assets/a.js.gz", record { size = 20; modified = 6000 }) ∷ [])
          script_path
          record { size = 40; modified = 5000 })).content
      ≡ file_of (codes "/p/assets/a.js.gz"))
    × ((serve_asset without_br (asks (codes "br, gzip")) script_path false outputs).content
        ≡ file_of script_path)
unfolding publishing
gzip_only_test = (refl, refl)

find_asset-IsIndexed_example :
    IsIndexed on lower outputs (codes "/p") listing index.folds url script
    ⊎ ((index.folds ≡ true)
        × IsIndexed on lower outputs (codes "/p") listing index.folds (lower url) script)
unfolding publishing
find_asset-IsIndexed_example =
    find_asset-IsIndexed on lower false outputs (codes "/p") none listing url {info = script} refl

is_ok : ◌≢◌ {A = ℕ} 200 404
is_ok h = omega (arith, h)

serve_asset-IsSent_example :
    IsSent on outputs
      (asks (codes "br"))
      script_path
      (serve_asset on (asks (codes "br")) script_path false outputs)
unfolding publishing
serve_asset-IsSent_example =
    serve_asset-IsSent on outputs (asks (codes "br")) script_path false is_ok

serve_indexed-IsSent_example :
    IsSent without_br outputs
      (asks (codes "br"))
      script_path
      (serve_indexed without_br (asks (codes "br")) script)
unfolding publishing
serve_indexed-IsSent_example =
    serve_indexed-IsSent on without_br lower false outputs (codes "/p") none listing url
      (asks (codes "br")) {info = script} refl is_ok

serve_indexed-IsSame_example :
    IsSame
      (serve_indexed on
        (asks (codes "gzip"))
        (asset_info on outputs disk script_path record { size = 40; modified = 5000 }))
      (serve_asset on (asks (codes "gzip")) script_path false outputs)
unfolding publishing
serve_indexed-IsSame_example =
    serve_indexed-IsSame on (asks (codes "gzip")) outputs script_path
      record { size = 40; modified = 5000 } refl disk refl refl refl (cc)

abbrev echo : Params
echo = (codes "if-none-match", codes "W/\"14-3uw-br\"") ∷ []

is_not_modified-asset_etag_example :
    (is_not_modified (λ s. none) echo (asset_etag 40 5001 (codes "-br")) 5001 ≡ true)
    ↔ (◌≡◌ {A = ℕ} 40 40 × ◌≡◌ {A = ℕ} 5000 5001 × (some (codes "br") ≡ some (codes "br")))
unfolding publishing
is_not_modified-asset_etag_example =
    is_not_modified-asset_etag (λ s. none) echo 40 5000 40 5001 (some (codes "br"))
      (some (codes "br")) (refl, (refl, (refl, tt))) refl

abbrev splice : Params
splice = (codes "if-range", codes "W/\"14-3uw\"") ∷ ((codes "range", codes "bytes=7-") ∷ [])

serve-IsWhole_example :
    IsWhole (serve_asset on splice script_path false outputs).content
    × IsWhole (serve_indexed on splice script).content
unfolding publishing
serve-IsWhole_example =
    serve-IsWhole on splice (codes "W/\"14-3uw\"") (codes "bytes=7-") refl refl script_path false
      outputs script
