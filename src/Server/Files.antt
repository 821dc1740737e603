-- ===== src/Server/Files.antt =====
-- The asset block of `handle`: which paths may name a file of `public`.
use borgo.Common.{
  ◌≡◌, ◌≢◌, refl, sym, ap, subst, inl, inr, Bool, true, false, ◌&&◌, ◌||◌, not, List, [], ◌∷◌, ◌++◌,
  Option, none, some, arith, Bool-cases, drop,
}
use borgo.Text.{Text, codes, ◌===◌, ===_iff, starts_with, includes, split}
use borgo.Router.{safe_decode}
use borgo.PublicPath.{
  hidden_between, in_hidden_directory, has_dots, has_extension, has_windows_mark,
}
use borgo.Server.{
  Request, Site, Reply, indexed_file, file, Probe, served, late, is_get, may_be_file, probe_file,
  probe_asset,
}

-- Only the first of the segments, and only as `.well-known`, is a directory that starts with a dot.
pub VisibleBetween : Bool → List Text → Type 0
VisibleBetween first segments =
    (before : List Text) (s t : Text) (after : List Text)
    → segments ≡ before ++ (s ∷ t ∷ after)
    → starts_with b'.' s ≡ true
    → (before ≡ []) × (first ≡ true) × (s ≡ codes ".well-known")

append-not-nil : (before : List Text) (s : Text) (rest : List Text) → before ++ (s ∷ rest) ≢ []
append-not-nil [] s rest e = cc
append-not-nil (b ∷ before) s rest e = cc

visible_first :
    (first shown : Bool) (x s : Text)
    → x ≡ s
    → ((starts_with b'.' x && not (first && x === codes ".well-known")) || shown) ≡ false
    → starts_with b'.' s ≡ true
    → (first ≡ true) × (s ≡ codes ".well-known")
visible_first first shown x s same h dot =
    (ground arith, ground (arith, ===_iff s (codes ".well-known")))

hidden_between-Visible :
    (first : Bool) (segments : List Text)
    → hidden_between first segments ≡ false
    → VisibleBetween first segments
unfolding hidden_between VisibleBetween
hidden_between-Visible first [] h before s t after e dot =
    absurd (append-not-nil before s (t ∷ after) (sym e))
hidden_between-Visible first (x ∷ []) h [] s t after e dot = cc
hidden_between-Visible first (x ∷ []) h (b ∷ before) s t after e dot =
    absurd (append-not-nil before s (t ∷ after) (cc))
hidden_between-Visible first (x ∷ y ∷ rest) h [] s t after e dot =
    let (at_root, known) = visible_first first (hidden_between false (y ∷ rest)) x s (cc) h dot in
    (refl, at_root, known)
hidden_between-Visible first (x ∷ y ∷ rest) h (b ∷ before) s t after e dot =
    let shown = hidden_between-Visible false (y ∷ rest) (ground arith) before s t after (cc) dot in
    absurd (ground arith)

has_dots-none : (before after : Text) → has_dots (before ++ (b'.' ∷ b'.' ∷ after)) ≡ true
unfolding has_dots
has_dots-none [] after = ground arith
has_dots-none (c ∷ before) after = rw (has_dots-none before after) (ground arith)

-- A path that names a file of `public`.
pub record IsPublic {Facts : Type 0} (site : Site Facts) (path : Text) : Type 0 where
  pub no_parent : (before after : Text) → path ≢ before ++ (b'.' ∷ b'.' ∷ after)
  pub no_backslash : includes b'\\' path ≡ false
  pub no_nul : includes 0 path ≡ false
  pub visible : VisibleBetween true (drop 1 (split b'/' path))
  pub no_stream : site.windows ≡ true → includes b':' path ≡ false

any-includes : (path : Text) → has_windows_mark path ≡ false → includes b':' path ≡ false
any-includes [] h = refl
any-includes (c ∷ s) h = ground (arith, any-includes s)

may_be_file-IsPublic :
    {Facts : Type 0} (site : Site Facts) (path : Text)
    → may_be_file site path ≡ true
    → IsPublic site path
unfolding may_be_file in_hidden_directory
may_be_file-IsPublic site path h = record {
  no_parent = λ before after e. ground (arith, has_dots-none before after, ap has_dots e);
  no_backslash = ground arith;
  no_nul = ground arith;
  visible = hidden_between-Visible true (drop 1 (split b'/' path)) (ground arith);
  no_stream = λ w. any-includes path (ground arith);
}

pub record IsServable {Facts : Type 0} (site : Site Facts) (req : Request Facts) : Type 0 where
  pub in_front : site.render ≡ false
  pub reads : is_get req ≡ true
  pub named : IsPublic site (safe_decode req.pathname)

-- How a file answers: a request to read it, at a public path, that is there.
pub data Served {Facts : Type 0} (site : Site Facts) (req : Request Facts) : Reply → Type 0 where
  from_index :
      IsServable site req
      → site.indexed (safe_decode req.pathname) ≡ true
      → Served site req (indexed_file (safe_decode req.pathname))
  from_disk :
      IsServable site req
      → has_extension (safe_decode req.pathname) ≡ true
      → site.exists (safe_decode req.pathname) ≡ true
      → Served site req (file (safe_decode req.pathname))

late-not-served : {path : Option Text} {reply : Reply} → late path ≢ served reply
late-not-served e = cc

served-eq : {r s : Reply} → served r ≡ served s → r ≡ s
served-eq e = cc

late-none : {path : Text} → ◌≢◌ {A = Probe} (late none) (late (some path))
late-none e = cc

module _ {Facts : Type 0} where
  servable :
      (site : Site Facts) (req : Request Facts)
      → (not site.render && is_get req && may_be_file site (safe_decode req.pathname)) ≡ true
      → IsServable site req
  servable site req asks = record {
    in_front = ground arith;
    reads = ground arith;
    named = may_be_file-IsPublic site (safe_decode req.pathname) (ground arith);
  }

  probe_file-Served :
      (site : Site Facts) (req : Request Facts) {reply : Reply}
      → IsServable site req
      → probe_file site (safe_decode req.pathname) ≡ served reply
      → Served site req reply
  unfolding probe_file
  probe_file-Served site req may e = elim (Bool-cases (site.indexed (safe_decode req.pathname))) [
    | inl listed ↦ subst (Served site req) (served-eq (rw listed at e)) (from_index may listed)
    | inr unlisted ↦ elim (Bool-cases (has_extension (safe_decode req.pathname))) [
      | inl named ↦ elim (Bool-cases (site.exists (safe_decode req.pathname))) [
        | inl there ↦
            subst (Served site req) (served-eq (rw (unlisted, named, there) at e))
              (from_disk may named there)
        | inr gone ↦ absurd (late-not-served (rw (unlisted, named, gone) at e))
      ]
      | inr bare ↦ absurd (late-not-served (rw (unlisted, bare) at e))
    ]
  ]

  pub probe_asset-Served :
      (site : Site Facts) (req : Request Facts) {reply : Reply}
      → probe_asset site req ≡ served reply
      → Served site req reply
  unfolding probe_asset
  probe_asset-Served site req e =
      elim (Bool-cases
        (not site.render && is_get req && may_be_file site (safe_decode req.pathname))) [
          | inl asks ↦ probe_file-Served site req (servable site req asks) (rw asks at e)
          | inr skips ↦ absurd (late-not-served (rw skips at e))
        ]

  probe_file-late :
      (site : Site Facts) (path : Text) {late_path : Text}
      → probe_file site path ≡ late (some late_path)
      → path ≡ late_path
  unfolding probe_file
  probe_file-late site path e = ground arith

  pub probe_asset-late :
      (site : Site Facts) (req : Request Facts) {path : Text}
      → probe_asset site req ≡ late (some path)
      → IsServable site req × (path ≡ safe_decode req.pathname)
  unfolding probe_asset
  probe_asset-late site req e = elim (Bool-cases asks) [
    | inl may ↦
        (servable site req may, sym (probe_file-late site (safe_decode req.pathname) (rw may at e)))
    | inr skips ↦ absurd (late-none (rw skips at e))
  ]
    where
      asks : Bool
      asks = not site.render && is_get req && may_be_file site (safe_decode req.pathname)
