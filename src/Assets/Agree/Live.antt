-- ===== src/Assets/Agree/Live.antt =====
-- `serveIndexed` against `serveAsset` of packages/borgo/src/compress.ts, on one disk.
use borgo.Common.{
  ◌≡◌, refl, sym, subst, Bool, true, false, List, [], ◌∷◌, ◌++◌, Option, none, some, Bool-cases,
  inl, inr, arith, if◌then◌else◌, ◌&&◌, ◌||◌, not,
}
use borgo.Text.{Text, codes, ◌===◌, ===_iff, listed}
use borgo.Params.{Params}
use borgo.Server.Reach.{none-not-some}
use borgo.Maps.{Map, lookup}
use borgo.Assets.{Stat, BuildOutputs, asset_cache_control, is_compressible_path, is_hidden_asset}
use borgo.Assets.Encoding.{pick_encoding}
use borgo.Assets.Encoding.Picked.{pick_encoding-listed}
use borgo.Assets.Agree.{
  IsSame, headers-agree, deliver-IsSame, Picks, first, second, neither, pick_encoding-Picks,
}
use borgo.Assets.Index.{asset_info, siblings, add_sibling, variant_of}
use borgo.Assets.Serve.{
  Platform, AssetVariant, AssetInfo, Representation, accepted_by, find_variant, encoding_is,
  offered, encodings, or_base, negotiate, indexed_answer, sibling_answer, serve_variant,
  serve_indexed, sibling_or, choose_sent, send, serve_asset,
}

-- two encodings at most
data Pick : Option Text → Type 0 where
  no_pick : Pick none
  br_pick : Pick (some (codes "br"))
  gzip_pick : Pick (some (codes "gzip"))

module _ (on : Platform) (asked : Params) (outputs : BuildOutputs) (path : Text) (base : Stat)
    (there : on.stat path ≡ some base) where
  abbrev br : Text
  br = path ++ codes ".br"

  abbrev gz : Text
  gz = path ++ codes ".gz"

  -- the entry of the file, with some siblings
  abbrev entry : List AssetVariant → AssetInfo
  entry variants = record {
    identity = variant_of outputs path none base;
    variants = variants;
    compressible = is_compressible_path path;
    last_modified = on.utc base.modified;
    content_type = on.type_of path;
  }

  encodings-Pick :
      (o : Option Text) → pick_encoding on.number (accepted_by asked) encodings ≡ o → Pick o
  unfolding listed
  encodings-Pick none e = no_pick
  encodings-Pick (some f) e = elim (Bool-cases (f === codes "br")) [
    | inl is_br ↦
        subst (λ (g : Text). Pick (some g)) (sym ((===_iff f (codes "br")).0 is_br)) br_pick
    | inr other ↦ elim (Bool-cases (f === codes "gzip")) [
      | inl is_gzip ↦
          subst (λ (g : Text). Pick (some g)) (sym ((===_iff f (codes "gzip")).0 is_gzip)) gzip_pick
      | inr third ↦ absurd (
          unlisted (f === codes "br") (f === codes "gzip") other third
            (pick_encoding-listed on.number (accepted_by asked) encodings e))
    ]
  ]
    where
      unlisted : (a b : Bool) → a ≡ false → b ≡ false → (a || (b || false)) ≡ true → ⊥
      unlisted a b p q h = ground arith

  -- a file that both send
  agree_file :
      (variants : List AssetVariant) (file : Text) (encoding : Option Text) (seen live : Stat)
      → IsSame
          (indexed_answer on asked
            (entry variants)
            (variant_of outputs file encoding seen)
            (some live)
            (some base))
          (send on asked path outputs base record { path = file; encoding = encoding; live = live })
  unfolding indexed_answer send variant_of asset_cache_control
  agree_file variants file encoding seen live =
      deliver-IsSame on asked _ _ (on.type_of path) file encoding live
        (headers-agree encoding (on.type_of path) _ (is_compressible_path path))

  abbrev plain : Representation
  plain = record { path = path; encoding = none; live = base }

  agree_identity :
      (variants : List AssetVariant)
      → IsSame
          (serve_variant on asked (entry variants) (variant_of outputs path none base) none)
          (send on asked path outputs base plain)
  unfolding serve_variant variant_of
  agree_identity variants = rw there (agree_file variants path none base base)

  agree_sibling :
      (variants : List AssetVariant) (file e : Text) (seen live : Stat)
      → on.stat file ≡ some live
      → IsSame
          (serve_variant on asked (entry variants) (variant_of outputs file (some e) seen) (some e))
          (send on asked path outputs base record { path = file; encoding = some e; live = live })
  unfolding serve_variant sibling_answer variant_of
  agree_sibling variants file e seen live beside =
      rw (beside, there) (agree_file variants file (some e) seen live)

  -- the answer of the index, by the file that it sends
  from_negotiate :
      (variants : List AssetVariant) (variant : AssetVariant) (sent : Representation)
      → negotiate on asked (entry variants) ≡ variant
      → IsSame
          (serve_variant on asked (entry variants) variant variant.encoding)
          (send on asked path outputs base sent)
      → IsSame (serve_indexed on asked (entry variants)) (send on asked path outputs base sent)
  unfolding serve_indexed
  from_negotiate variants variant sent e h =
      subst
        (λ (v : AssetVariant).
          IsSame (serve_variant on asked (entry variants) v v.encoding)
            (send on asked path outputs base sent))
        (sym e) h

  abbrev both : Option Stat → Option Stat → List AssetVariant
  both b g = add_sibling outputs br (codes "br") b (add_sibling outputs gz (codes "gzip") g [])

  abbrev live_sent : Option Text → Representation
  live_sent o = sibling_or on path base o

  agree_two :
      (b g : Stat) (o : Option Text)
      → on.stat br ≡ some b
      → on.stat gz ≡ some g
      → pick_encoding on.number (accepted_by asked) encodings ≡ o
      → Pick o
      → IsSame
          (serve_indexed on asked (entry (both (some b) (some g))))
          (send on asked path outputs base (live_sent o))
  unfolding sibling_or or_base add_sibling negotiate offered encoding_is find_variant variant_of
      ◌===◌
  agree_two b g o at_br at_gz e no_pick =
      from_negotiate (both (some b) (some g)) (variant_of outputs path none base) plain
        (rw (e, negotiate) refl) (agree_identity (both (some b) (some g)))
  agree_two b g o at_br at_gz e br_pick = rw at_br (
      from_negotiate (both (some b) (some g)) (variant_of outputs br (some (codes "br")) b)
        record { path = br; encoding = some (codes "br"); live = b } (rw (e, negotiate) refl)
        (agree_sibling (both (some b) (some g)) br (codes "br") b b at_br))
  agree_two b g o at_br at_gz e gzip_pick = rw at_gz (
      from_negotiate (both (some b) (some g)) (variant_of outputs gz (some (codes "gzip")) g)
        record { path = gz; encoding = some (codes "gzip"); live = g } (rw (e, negotiate) refl)
        (agree_sibling (both (some b) (some g)) gz (codes "gzip") g g at_gz))

  agree_br :
      (b : Stat) (o p : Option Text)
      → on.stat br ≡ some b
      → on.stat gz ≡ none
      → pick_encoding on.number (accepted_by asked) (codes "br" ∷ []) ≡ o
      → Picks (codes "br") (codes "gzip") o p
      → IsSame
          (serve_indexed on asked (entry (both (some b) none)))
          (send on asked path outputs base (live_sent p))
  unfolding sibling_or or_base add_sibling negotiate offered encoding_is find_variant variant_of
      ◌===◌
  agree_br b o p at_br at_gz e first = rw at_br (
      from_negotiate (both (some b) none) (variant_of outputs br (some (codes "br")) b)
        record { path = br; encoding = some (codes "br"); live = b } (rw (e, negotiate) refl)
        (agree_sibling (both (some b) none) br (codes "br") b b at_br))
  agree_br b o p at_br at_gz e second = rw at_gz (
      from_negotiate (both (some b) none) (variant_of outputs path none base) plain
        (rw (e, negotiate) refl) (agree_identity (both (some b) none)))
  agree_br b o p at_br at_gz e neither =
      from_negotiate (both (some b) none) (variant_of outputs path none base) plain
        (rw (e, negotiate) refl) (agree_identity (both (some b) none))

  agree_bare :
      (o : Option Text)
      → on.stat br ≡ none
      → on.stat gz ≡ none
      → Pick o
      → IsSame (serve_indexed on asked (entry [])) (send on asked path outputs base (live_sent o))
  unfolding sibling_or or_base negotiate variant_of ◌===◌
  agree_bare o no_br no_gz no_pick =
      from_negotiate [] (variant_of outputs path none base) plain refl (agree_identity [])
  agree_bare o no_br no_gz br_pick =
      rw no_br
        (from_negotiate [] (variant_of outputs path none base) plain refl (agree_identity []))
  agree_bare o no_br no_gz gzip_pick =
      rw no_gz
        (from_negotiate [] (variant_of outputs path none base) plain refl (agree_identity []))

  agree_compressible :
      (b g : Option Stat)
      → on.stat br ≡ b
      → on.stat gz ≡ g
      → (b ≡ none → g ≡ none)
      → IsSame (serve_indexed on asked (entry (both b g))) (
          send on asked path outputs base
            (live_sent (pick_encoding on.number (accepted_by asked) encodings)))
  unfolding add_sibling
  agree_compressible none none no_br no_gz h =
      let picked = pick_encoding on.number (accepted_by asked) encodings in
      agree_bare picked no_br no_gz (encodings-Pick picked refl)
  agree_compressible none (some g) no_br at_gz h = absurd (none-not-some (sym (h refl)))
  agree_compressible (some b) none at_br no_gz h =
      agree_br b (pick_encoding on.number (accepted_by asked) (codes "br" ∷ []))
        (pick_encoding on.number (accepted_by asked) encodings) at_br no_gz refl
        (pick_encoding-Picks on.number (accepted_by asked) (codes "br") (codes "gzip"))
  agree_compressible (some b) (some g) at_br at_gz h =
      let picked = pick_encoding on.number (accepted_by asked) encodings in
      agree_two b g picked at_br at_gz refl (encodings-Pick picked refl)

  agree_entry :
      (compressible : Bool)
      → (on.stat br ≡ none → on.stat gz ≡ none)
      → IsSame
          (serve_indexed on asked
            (entry (if compressible then both (on.stat br) (on.stat gz) else [])))
          (send on asked path outputs base (
            live_sent (
              if compressible && not false
              then pick_encoding on.number (accepted_by asked) encodings
              else none)))
  unfolding sibling_or or_base negotiate variant_of
  agree_entry true h = agree_compressible (on.stat br) (on.stat gz) refl refl h
  agree_entry false h =
      from_negotiate [] (variant_of outputs path none base) plain refl (agree_identity [])

  -- On one disk, from an index that holds the siblings of a file as they are there, a production
  -- server answers each request for the file as it does without the index, if the file has a
  -- Brotli sibling wherever it has a gzip one.
  pub serve_indexed-IsSame :
      (files : Map Stat)
      → is_hidden_asset path ≡ false
      → lookup br files ≡ on.stat br
      → lookup gz files ≡ on.stat gz
      → (on.stat br ≡ none → on.stat gz ≡ none)
      → IsSame
          (serve_indexed on asked (asset_info on outputs files path base))
          (serve_asset on asked path false outputs)
  unfolding asset_info siblings serve_asset choose_sent
  serve_indexed-IsSame files shown known_br known_gz h =
      rw (shown, there, known_br, known_gz) (agree_entry (is_compressible_path path) h)
