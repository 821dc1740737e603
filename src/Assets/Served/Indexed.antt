-- ===== src/Assets/Served/Indexed.antt =====
-- What `serveIndexed` of packages/borgo/src/compress.ts sends.
use borgo.Common.{
  ℕ, ◌≡◌, ◌≢◌, refl, sym, ap₂, ap, ◌∙◌, subst, Bool, true, List, [], ◌∷◌, Option, none, some,
  is_empty, Bool-cases, Option-cases, inl, inr, All,
}
use borgo.Text.{Text, ◌===◌, ===_iff}
use borgo.Params.{Params, get, put}
use borgo.Assets.{Stat, BuildOutputs, pinned_size_for, pin_policy}
use borgo.Assets.Encoding.{pick_encoding, Takes}
use borgo.Assets.Encoding.Picked.{pick_encoding-Takes}
use borgo.Assets.Index.{DirEntry, find_asset}
use borgo.Assets.Index.Entries.{IsEntry, IsSibling, built, find_asset-IsIndexed}
use borgo.Assets.Answers.{put_vary-keeps, put_encoding-keeps, put_encoding-get}
use borgo.Assets.Served.{cache_control, content_encoding, Encodes, IsSent, delivered-IsSent, no_404}
use borgo.Assets.Serve.{
  Platform, AssetVariant, AssetInfo, accepted_by, put_encoding, put_vary, find_variant, encoding_is,
  offered, encodings, negotiate, indexed_answer, sibling_answer, serve_variant, serve_indexed,
}

module _ (on : Platform) (outputs : BuildOutputs) (asked : Params) (info : AssetInfo)
    (entry : IsEntry outputs info) where
  -- A file that may answer for an entry.
  record IsOffered (variant : AssetVariant) : Type 0 where
    pub encodes : Encodes on asked info.identity.path variant.encoding variant.path
    pub pinned : variant.pinned_size ≡ pinned_size_for variant.path outputs

  identity-IsOffered : IsOffered info.identity
  unfolding Encodes
  identity-IsOffered = record {
    encodes =
        subst (λ (e : Option Text). Encodes on asked info.identity.path e info.identity.path)
          (sym entry.plain) refl;
    pinned = entry.pinned;
  }

  sibling-IsOffered :
      (variant : AssetVariant) (e : Text)
      → encoding_is e variant ≡ true
      → Takes on.number (accepted_by asked) e
      → IsSibling outputs info.identity.path variant
      → IsOffered variant
  unfolding encoding_is Encodes
  sibling-IsOffered variant e named takes sibling = record {
    encodes =
        subst (λ (f : Option Text). Encodes on asked info.identity.path f variant.path)
          (sym sibling.encoded)
          (
            sibling.named,
            subst (λ (f : Text). Takes on.number (accepted_by asked) f) (sym same) takes,
          );
    pinned = sibling.pinned;
  }
    where
      same : sibling.encoding ≡ e
      same = (===_iff sibling.encoding e).0 (rw sibling.encoded at named)

  find_variant-IsOffered :
      (e : Text) (variants : List AssetVariant)
      → Takes on.number (accepted_by asked) e
      → All (IsSibling outputs info.identity.path) variants
      → IsOffered (find_variant e info.identity variants)
  unfolding find_variant
  find_variant-IsOffered e [] takes h = identity-IsOffered
  find_variant-IsOffered e (v ∷ variants) takes (sibling, h) = elim (Bool-cases (encoding_is e v)) [
    | inl named ↦ rw named (sibling-IsOffered v e named takes sibling)
    | inr other ↦ rw other (find_variant-IsOffered e variants takes h)
  ]

  negotiate-IsOffered : IsOffered (negotiate on asked info)
  unfolding negotiate
  negotiate-IsOffered = elim (Bool-cases (is_empty info.variants)) [
    | inl bare ↦ rw (bare, negotiate) identity-IsOffered
    | inr siblings ↦ elim (Option-cases picked) [
      | inl unmet ↦ rw (siblings, unmet, negotiate) identity-IsOffered
      | inr (e, met) ↦
          rw (siblings, met, negotiate)
            (find_variant-IsOffered e info.variants
              (pick_encoding-Takes on.number (accepted_by asked) (offered info.variants encodings)
                met)
              entry.variants)
    ]
  ]
    where
      picked : Option Text
      picked = pick_encoding on.number (accepted_by asked) (offered info.variants encodings)

  indexed_answer-IsSent :
      (variant : AssetVariant) (live base : Option Stat)
      → IsOffered variant
      → on.stat variant.path ≡ live
      → on.stat info.identity.path ≡ base
      → (indexed_answer on asked info variant live base).status ≢ 404
      → IsSent on outputs asked info.identity.path (indexed_answer on asked info variant live base)
  unfolding indexed_answer get put ◌===◌
  indexed_answer-IsSent variant none base offer there base_there found =
      no_404 on outputs asked found
  indexed_answer-IsSent variant (some live) none offer there base_there found =
      no_404 on outputs asked found
  indexed_answer-IsSent variant (some live) (some base) offer there base_there found =
      delivered-IsSent on outputs asked (put_encoding variant.encoding info.content_type varied)
        info.content_type info.identity.path base
        record { path = variant.path; encoding = variant.encoding; live = live } base_there there
        offer.encodes
        (put_encoding-get variant.encoding info.content_type varied
          (put_vary-keeps info.compressible content_encoding (put cache_control policy []) refl))
        (put_encoding-keeps variant.encoding info.content_type cache_control varied refl refl
          ∙ put_vary-keeps info.compressible cache_control (put cache_control policy []) refl
          ∙ ap₂ (λ (a b : Option ℕ). some (pin_policy a (some live.size) b (some base.size)))
              offer.pinned entry.pinned)
    where
      policy : Text
      policy =
          pin_policy variant.pinned_size (some live.size) info.identity.pinned_size (some base.size)

      varied : Params
      varied = put_vary info.compressible (put cache_control policy [])

  sibling_answer-IsSent :
      (variant : AssetVariant) (live : Option Stat)
      → IsOffered variant
      → on.stat variant.path ≡ live
      → (sibling_answer on asked info variant live).status ≢ 404
      → IsSent on outputs asked info.identity.path (sibling_answer on asked info variant live)
  unfolding sibling_answer
  sibling_answer-IsSent variant none offer there found =
      indexed_answer-IsSent info.identity (on.stat info.identity.path) (on.stat info.identity.path)
        identity-IsOffered refl refl found
  sibling_answer-IsSent variant (some live) offer there found =
      indexed_answer-IsSent variant (some live) (on.stat info.identity.path) offer there refl found

  serve_variant-IsSent :
      (variant : AssetVariant) (encoding : Option Text)
      → IsOffered variant
      → variant.encoding ≡ encoding
      → (serve_variant on asked info variant encoding).status ≢ 404
      → IsSent on outputs asked info.identity.path (serve_variant on asked info variant encoding)
  unfolding serve_variant Encodes
  serve_variant-IsSent variant none offer encoded found =
      indexed_answer-IsSent variant (on.stat variant.path) (on.stat variant.path) offer refl
        (ap on.stat (sym here)) found
    where
      here : variant.path ≡ info.identity.path
      here =
          subst (λ (e : Option Text). Encodes on asked info.identity.path e variant.path) encoded
            offer.encodes
  serve_variant-IsSent variant (some e) offer encoded found =
      sibling_answer-IsSent variant (on.stat variant.path) offer refl found

  serve_entry-IsSent :
      (serve_indexed on asked info).status ≢ 404
      → IsSent on outputs asked info.identity.path (serve_indexed on asked info)
  unfolding serve_indexed
  serve_entry-IsSent found =
      let variant = negotiate on asked info in
      serve_variant-IsSent variant variant.encoding negotiate-IsOffered refl found

module _ (at_boot now : Platform) (lower : Text → Text) (case_insensitive_fs : Bool)
    (outputs : BuildOutputs) (dir : Text) (case_insensitive : Option Bool)
    (listing : List DirEntry) where
  -- An answer from the index of boot is one for the file of the entry on the disk as it is now, as
  -- for a file outside the index: if it is no 404 it has no bytes but those of the file or of its
  -- sibling in an encoding that the client takes, which it names as its Content-Encoding; it may be
  -- kept for a year only if the build recorded the present lengths of both files, in the directory
  -- that it wrote, and neither is a service worker.
  pub serve_indexed-IsSent :
      (url : Text) (asked : Params) {info : AssetInfo}
      → find_asset lower
          (built at_boot lower case_insensitive_fs outputs dir case_insensitive listing)
          url
        ≡ some info
      → (serve_indexed now asked info).status ≢ 404
      → IsSent now outputs asked info.identity.path (serve_indexed now asked info)
  serve_indexed-IsSent url asked {info} known =
      serve_entry-IsSent now outputs asked info
        (elim (find_asset-IsIndexed at_boot lower case_insensitive_fs outputs dir case_insensitive
          listing url known) [ inl indexed ↦ indexed.entry | inr (folds, indexed) ↦ indexed.entry ])
