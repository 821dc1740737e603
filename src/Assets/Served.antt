-- ===== src/Assets/Served.antt =====
-- What `serveIndexed` and `serveAsset` of packages/borgo/src/compress.ts send: which file, under
-- which encoding, and for how long it may be kept.
pub mod Indexed
use borgo.Common.{
  ℕ, ◌≡◌, ◌≢◌, refl, sym, ap, ◌∙◌, subst, Bool, true, false, ◌&&◌, not, List, [], ◌∷◌, Option, none,
  some, if◌then◌else◌, is_empty, Bool-cases, Option-cases, inl, inr, arith, All, some-eq,
}
use borgo.Text.{Text, codes, ◌===◌, listed}
use borgo.Params.{Params, get, put}
use borgo.Server.Reach.{none-not-some}
use borgo.Assets.{
  Stat, BuildOutputs, immutable, pinned_size_for, pin_policy, asset_cache_control,
  is_compressible_path, is_hidden_asset,
}
use borgo.Assets.Encoding.{pick_encoding, Takes}
use borgo.Assets.Encoding.Picked.{pick_encoding-Takes}
use borgo.Assets.Pinned.{IsPinned, vouched-IsPinned, pin_policy-immutable}
use borgo.Assets.Index.Entries.{IsEntry, IsSibling}
use borgo.Assets.Answers.{
  Holds, late_headers, get-put_same, get-put_other, put_vary-keeps, put_encoding-keeps,
  put_encoding-get, deliver-Holds, deliver-keeps,
}
use borgo.Assets.Serve.{
  Platform, AssetVariant, AssetInfo, Answer, Representation, not_found, accepted_by, put_encoding,
  put_vary, find_variant, encoding_is, offered, encodings, sibling_of, negotiate, deliver,
  indexed_answer, sibling_answer, serve_variant, serve_indexed, or_base, sibling_or, choose_sent,
  send, serve_asset,
}

abbrev pub cache_control : Text
cache_control = codes "cache-control"

abbrev pub content_encoding : Text
content_encoding = codes "content-encoding"

-- An encoding of a file that a client takes, and the path of the bytes in it.
unfoldable pub Encodes : Platform → Params → Text → Option Text → Text → Type 0
Encodes on asked path none sent = sent ≡ path
Encodes on asked path (some e) sent =
    (sent ≡ sibling_of path e) × Takes on.number (accepted_by asked) e

-- An answer for the file at a path: its bytes, or those of a sibling of it, as they are on the disk,
-- labelled with their encoding, and for a year only if the build vouches for both files as they are.
pub record IsSent (on : Platform) (outputs : BuildOutputs) (asked : Params) (path : Text)
    (answer : Answer) : Type 0 where
  pub sent : Text
  pub live : Stat
  pub base : Stat
  pub there : on.stat sent ≡ some live
  pub base_there : on.stat path ≡ some base
  pub holds : Holds sent answer.content
  pub labelled : Encodes on asked path (get content_encoding answer.headers) sent
  pub year :
      get cache_control answer.headers ≡ some immutable
      → IsPinned outputs sent live × IsPinned outputs path base

module _ (on : Platform) (outputs : BuildOutputs) (asked : Params) where
  -- `cache-control` and `content-encoding` pass the rest of an answer
  module _ (headers : Params) (content_type path : Text) (encoding : Option Text)
      (live : Stat) where
    abbrev delivered : Answer
    delivered = deliver on asked headers content_type path encoding live

    delivered_year : get cache_control delivered.headers ≡ get cache_control headers
    unfolding listed ◌===◌
    delivered_year =
        deliver-keeps on asked headers content_type path encoding live cache_control refl

    delivered_encoding : get content_encoding delivered.headers ≡ get content_encoding headers
    unfolding listed ◌===◌
    delivered_encoding =
        deliver-keeps on asked headers content_type path encoding live content_encoding refl

  or_base-there :
      (path sibling_path : Text) (encoding : Option Text) (base : Stat) (sibling : Option Stat)
      → on.stat path ≡ some base
      → on.stat sibling_path ≡ sibling
      → on.stat (or_base path sibling_path encoding base sibling).path
        ≡ some (or_base path sibling_path encoding base sibling).live
  unfolding or_base
  or_base-there path sibling_path encoding base none there beside = there
  or_base-there path sibling_path encoding base (some sibling) there beside = beside

  or_base-Encodes :
      (path e : Text) (base : Stat) (sibling : Option Stat)
      → Takes on.number (accepted_by asked) e
      → Encodes on asked path
          (or_base path (sibling_of path e) (some e) base sibling).encoding
          (or_base path (sibling_of path e) (some e) base sibling).path
  unfolding or_base Encodes
  or_base-Encodes path e base none takes = refl
  or_base-Encodes path e base (some sibling) takes = (refl, takes)

  sibling_or-there :
      (path : Text) (base : Stat) (encoding : Option Text)
      → on.stat path ≡ some base
      → on.stat (sibling_or on path base encoding).path
        ≡ some (sibling_or on path base encoding).live
  unfolding sibling_or or_base
  sibling_or-there path base none there = there
  sibling_or-there path base (some e) there =
      or_base-there path (sibling_of path e) (some e) base (on.stat (sibling_of path e)) there refl

  sibling_or-Encodes :
      (path : Text) (base : Stat) (encoding : Option Text)
      → ((e : Text) → encoding ≡ some e → Takes on.number (accepted_by asked) e)
      → Encodes on asked path
          (sibling_or on path base encoding).encoding
          (sibling_or on path base encoding).path
  unfolding sibling_or or_base Encodes
  sibling_or-Encodes path base none takes = refl
  sibling_or-Encodes path base (some e) takes =
      or_base-Encodes path e base (on.stat (sibling_of path e)) (takes e refl)

  -- what is left of the answer's claims once its two headers are known
  pub delivered-IsSent :
      (headers : Params) (content_type path : Text) (base : Stat) (sent : Representation)
      → on.stat path ≡ some base
      → on.stat sent.path ≡ some sent.live
      → Encodes on asked path sent.encoding sent.path
      → get content_encoding headers ≡ sent.encoding
      → get cache_control headers
        ≡ some (
            pin_policy
              (pinned_size_for sent.path outputs)
              (some sent.live.size)
              (pinned_size_for path outputs)
              (some base.size))
      → IsSent on outputs asked path
          (deliver on asked headers content_type sent.path sent.encoding sent.live)
  delivered-IsSent headers content_type path base sent base_there there encodes label policy =
      record {
        sent = sent.path;
        live = sent.live;
        base = base;
        there = there;
        base_there = base_there;
        holds = deliver-Holds on asked headers content_type sent.path sent.encoding sent.live;
        labelled =
            subst (λ (e : Option Text). Encodes on asked path e sent.path)
              (sym
                (delivered_encoding headers content_type sent.path sent.encoding sent.live ∙ label))
              encodes;
        year = λ e.
            let (sent_vouched, base_vouched) =
              pin_policy-immutable (pinned_size_for sent.path outputs) (some sent.live.size)
                (pinned_size_for path outputs) (some base.size)
                (sym
                    (delivered_year headers content_type sent.path sent.encoding sent.live ∙ policy)
                  ∙ e) in
            (
              vouched-IsPinned outputs sent.path sent.live sent_vouched,
              vouched-IsPinned outputs path base base_vouched,
            );
      }

  send-IsSent :
      (path : Text) (base : Stat) (sent : Representation)
      → on.stat path ≡ some base
      → on.stat sent.path ≡ some sent.live
      → Encodes on asked path sent.encoding sent.path
      → IsSent on outputs asked path (send on asked path outputs base sent)
  unfolding send asset_cache_control get ◌===◌
  send-IsSent path base sent base_there there encodes =
      delivered-IsSent (put cache_control policy encoded) (on.type_of path) path base sent
        base_there there encodes
        (get-put_other cache_control content_encoding policy encoded refl
          ∙ put_encoding-get sent.encoding (on.type_of path) varied
              (put_vary-keeps (is_compressible_path path) content_encoding [] refl))
        (get-put_same cache_control policy encoded)
    where
      varied : Params
      varied = put_vary (is_compressible_path path) []

      encoded : Params
      encoded = put_encoding sent.encoding (on.type_of path) varied

      policy : Text
      policy = asset_cache_control sent.path outputs (some sent.live.size) path (some base.size)

  pub no_404 : {path : Text} → not_found.status ≢ 404 → IsSent on outputs asked path not_found
  unfolding not_found
  no_404 found = absurd (found refl)

  -- An answer of `serveAsset` that is no 404 has no bytes but those on the disk of the file or of its
  -- sibling in an encoding that the client takes, which it names as its Content-Encoding; it may be
  -- kept for a year only if the build recorded the present lengths of both files, in the directory
  -- that it wrote, and neither is a service worker.
  pub serve_asset-IsSent :
      (path : Text) (dev : Bool)
      → (serve_asset on asked path dev outputs).status ≢ 404
      → IsSent on outputs asked path (serve_asset on asked path dev outputs)
  unfolding serve_asset choose_sent
  serve_asset-IsSent path dev found = elim (Bool-cases (is_hidden_asset path)) [
    | inl hidden ↦ absurd (found (rw (hidden, not_found) refl))
    | inr shown ↦ elim (Option-cases (on.stat path)) [
      | inl missing ↦ absurd (found (rw (shown, missing, not_found) refl))
      | inr (base, there) ↦
          rw (shown, there, serve_asset)
            (send-IsSent path base (choose_sent on asked path base dev) there
              (sibling_or-there path base picked there) (sibling_or-Encodes path base picked takes))
    ]
  ]
    where
      picked : Option Text
      picked =
          if is_compressible_path path && not dev
          then pick_encoding on.number (accepted_by asked) encodings
          else none

      takes : (e : Text) → picked ≡ some e → Takes on.number (accepted_by asked) e
      takes e h = elim (Bool-cases (is_compressible_path path && not dev)) [
        | inl picks ↦ pick_encoding-Takes on.number (accepted_by asked) encodings (rw picks at h)
        | inr plain ↦ absurd (none-not-some (rw plain at h))
      ]
