-- ===== src/Settings/Security/Headers.antt =====
-- The headers that `Security.apply` leaves on a response.
use borgo.Common.{
  ◌≡◌, refl, ap, ◌∙◌, Bool, true, false, ◌&&◌, ◌||◌, List, [], ◌∷◌, Option, some, none, arith,
  Option-cases, Bool-cases, inl, inr, if◌then◌else◌, All, map, subst,
}
use borgo.Text.{Text, codes, ◌===◌, ===_iff, replace_all, has_prefix}
use borgo.Params.{Params, get, get-put}
use borgo.Settings.Security.{
  Security, nonce_mark, static_security, set_missing, set_all_missing, is_document, csp_header,
  apply_csp, apply_security,
}

-- the value that a header has, or this one where it is missing
abbrev pub or_default : Text → Option Text → Text
or_default v none = v
or_default v (some w) = w

set_missing-get :
    (name v other : Text) (headers : Params)
    → get other (set_missing name v headers)
      ≡ (if name === other then some (or_default v (get name headers)) else get other headers)
unfolding set_missing
set_missing-get name v other headers = elim (Option-cases (get name headers)) [
  | inl missing ↦ rw (missing, set_missing) (get-put name other v headers)
  | inr (w, found) ↦ elim (Bool-cases (name === other)) [
    | inl same ↦
        rw (same, (===_iff name other).0 same)
          (rw
            (
              subst (λ (t : Text). get t headers ≡ some w) ((===_iff name other).0 same) found,
              set_missing,
            )
            (subst (λ (t : Text). get t headers ≡ some w) ((===_iff name other).0 same) found))
    | inr differs ↦ rw (found, differs, set_missing) refl
  ]
]

set_missing-keeps :
    (name v other w : Text) (headers : Params)
    → get other headers ≡ some w
    → get other (set_missing name v headers) ≡ some w
unfolding set_missing
set_missing-keeps name v other w headers h = elim (Option-cases (get name headers)) [
  | inr (found, e) ↦ rw (e, set_missing) h
  | inl missing ↦
      rw (missing, set_missing) (ground (arith, get-put name other v headers, ===_iff name other))
]

set_all_missing-keeps :
    (defaults : Params) (other w : Text) (headers : Params)
    → get other headers ≡ some w
    → get other (set_all_missing defaults headers) ≡ some w
unfolding set_all_missing
set_all_missing-keeps [] other w headers h = h
set_all_missing-keeps ((name, v) ∷ rest) other w headers h =
    set_all_missing-keeps rest other w (set_missing name v headers)
      (set_missing-keeps name v other w headers h)

apply_csp-keeps :
    (security : Security) (other w : Text) (headers : Params)
    → get other headers ≡ some w
    → get other (apply_csp security headers) ≡ some w
unfolding apply_csp
apply_csp-keeps security other w headers h =
    elim (Bool-cases (security.enabled && is_document headers)) [
      | inl sends ↦ rw sends (
          set_missing-keeps csp_header (replace_all nonce_mark [] security.template) other w headers
            h)
      | inr passes ↦ rw passes h
    ]

apply_security-keeps :
    (security : Security) (headers : Params) (name v : Text)
    → get name headers ≡ some v
    → get name (apply_security security headers) ≡ some v
unfolding apply_security
apply_security-keeps security headers name v h =
    apply_csp-keeps security name v (set_all_missing static_security headers)
      (set_all_missing-keeps static_security name v headers h)

is_document-set_all_missing :
    (headers : Params)
    → is_document headers ≡ true
    → is_document (set_all_missing static_security headers) ≡ true
unfolding is_document has_prefix
is_document-set_all_missing headers h = elim (Option-cases (get (codes "content-type") headers)) [
  | inr (type, e) ↦
      rw (set_all_missing-keeps static_security (codes "content-type") type headers e) (rw e at h)
  | inl missing ↦ absurd (no_document (rw missing at h))
]
  where
    no_document :
        (has_prefix (codes "text/html") [] || has_prefix (codes "image/svg+xml") []) ≡ true → ⊥
    no_document e = cc

apply_csp-get :
    (security : Security) (other : Text) (headers : Params)
    → get other (apply_csp security headers) ≡ (
        if security.enabled && is_document headers && csp_header === other
        then some
            (or_default (replace_all nonce_mark [] security.template) (get csp_header headers))
        else get other headers)
unfolding apply_csp
apply_csp-get security other headers = elim (Bool-cases (security.enabled && is_document headers)) [
  | inl sends ↦
      rw (sends, apply_csp)
        (set_missing-get csp_header (replace_all nonce_mark [] security.template) other headers)
  | inr passes ↦ rw (passes, apply_csp) refl
]

abbrev secured_names : List Text
secured_names = csp_header ∷ map (λ (d : Text × Text). d.0) static_security

-- What a response carries once the headers are applied to it: each header that it had; each static one
-- and, where a csp is sent and the response is html or svg, the policy without its nonce marks, with
-- these values unless it had its own; and no other header.
pub record IsSecured (security : Security) (before after : Params) : Type 0 where
  pub keeps : (name v : Text) → get name before ≡ some v → get name after ≡ some v
  pub options :
      get (codes "x-content-type-options") after
      ≡ some (or_default (codes "nosniff") (get (codes "x-content-type-options") before))
  pub referrer :
      get (codes "referrer-policy") after
      ≡ some (
          or_default
            (codes "strict-origin-when-cross-origin")
            (get (codes "referrer-policy") before))
  pub frames :
      get (codes "x-frame-options") after
      ≡ some (or_default (codes "DENY") (get (codes "x-frame-options") before))
  pub csp :
      security.enabled ≡ true
      → is_document before ≡ true
      → get (codes "content-security-policy") after
        ≡ some (
            or_default
              (replace_all (codes "{nonce}") [] security.template)
              (get (codes "content-security-policy") before))
  pub no_csp :
      (security.enabled && is_document before) ≡ false
      → get (codes "content-security-policy") after ≡ get (codes "content-security-policy") before
  pub others :
      (name : Text)
      → All (λ (h : Text). (h === name) ≡ false) secured_names
      → get name after ≡ get name before

never : {A : Type 0} (sends : Bool) (x y : A) → (if sends && false then x else y) ≡ y
never true x y = refl
never false x y = refl

module _ (headers : Params) where
  abbrev with_static : Params
  with_static = set_all_missing static_security headers

  static-options :
      get (codes "x-content-type-options") with_static
      ≡ some (or_default (codes "nosniff") (get (codes "x-content-type-options") headers))
  unfolding set_all_missing ◌===◌
  static-options =
      set_missing-get (codes "x-frame-options") (codes "DENY") (codes "x-content-type-options") _
      ∙ set_missing-get (codes "referrer-policy") (codes "strict-origin-when-cross-origin")
          (codes "x-content-type-options") _
      ∙ set_missing-get (codes "x-content-type-options") (codes "nosniff")
          (codes "x-content-type-options") headers

  static-referrer :
      get (codes "referrer-policy") with_static
      ≡ some (
          or_default
            (codes "strict-origin-when-cross-origin")
            (get (codes "referrer-policy") headers))
  unfolding set_all_missing ◌===◌
  static-referrer =
      set_missing-get (codes "x-frame-options") (codes "DENY") (codes "referrer-policy") _
      ∙ set_missing-get (codes "referrer-policy") (codes "strict-origin-when-cross-origin")
          (codes "referrer-policy") _
      ∙ ap (λ (o : Option Text). some (or_default (codes "strict-origin-when-cross-origin") o))
          (set_missing-get (codes "x-content-type-options") (codes "nosniff")
            (codes "referrer-policy") headers)

  static-frames :
      get (codes "x-frame-options") with_static
      ≡ some (or_default (codes "DENY") (get (codes "x-frame-options") headers))
  unfolding set_all_missing ◌===◌
  static-frames =
      set_missing-get (codes "x-frame-options") (codes "DENY") (codes "x-frame-options") _
      ∙ ap (λ (o : Option Text). some (or_default (codes "DENY") o))
          (set_missing-get (codes "referrer-policy") (codes "strict-origin-when-cross-origin")
              (codes "x-frame-options") _
            ∙ set_missing-get (codes "x-content-type-options") (codes "nosniff")
                (codes "x-frame-options") headers)

  set_missing-other :
      (name v other : Text) (before : Params)
      → (name === other) ≡ false
      → get other (set_missing name v before) ≡ get other before
  set_missing-other name v other before e = set_missing-get name v other before ∙ rw e refl

  static-other :
      (other : Text)
      → All (λ (d : Text × Text). (d.0 === other) ≡ false) static_security
      → get other with_static ≡ get other headers
  unfolding set_all_missing
  static-other other (a, (b, (c, _))) =
      set_missing-other (codes "x-frame-options") (codes "DENY") other _ c
      ∙ set_missing-other (codes "referrer-policy") (codes "strict-origin-when-cross-origin") other
          _ b
      ∙ set_missing-other (codes "x-content-type-options") (codes "nosniff") other headers a

  is_document-with_static : is_document with_static ≡ is_document headers
  unfolding is_document ◌===◌
  is_document-with_static = rw (static-other (codes "content-type") (refl, (refl, (refl, tt)))) refl

module _ (security : Security) (headers : Params) where
  secured-static :
      (name : Text) {found : Option Text}
      → (csp_header === name) ≡ false
      → get name (with_static headers) ≡ found
      → get name (apply_security security headers) ≡ found
  unfolding apply_security
  secured-static name differs e =
      apply_csp-get security name (with_static headers)
      ∙ rw differs (never (security.enabled && is_document (with_static headers)) _ _)
      ∙ e

  csp_before : get csp_header (with_static headers) ≡ get csp_header headers
  unfolding ◌===◌
  csp_before = static-other headers csp_header (refl, (refl, (refl, tt)))

  secured-csp :
      security.enabled ≡ true
      → is_document headers ≡ true
      → get csp_header (apply_security security headers)
        ≡ some (or_default (replace_all nonce_mark [] security.template) (get csp_header headers))
  unfolding apply_security ◌===◌
  secured-csp sends shows =
      apply_csp-get security csp_header (with_static headers)
      ∙ rw (sends, is_document-with_static headers, shows, csp_before) refl

  secured-no_csp :
      (security.enabled && is_document headers) ≡ false
      → get csp_header (apply_security security headers) ≡ get csp_header headers
  unfolding apply_security
  secured-no_csp off =
      apply_csp-get security csp_header (with_static headers)
      ∙ rw (is_document-with_static headers, off) csp_before

  -- A response keeps every header that it had. Unless it had its own, it gets each static header with
  -- the value that is written for it, and where a csp is sent and the response is html or svg, the
  -- policy without its nonce marks. It gets no other header.
  pub apply_security-IsSecured : IsSecured security headers (apply_security security headers)
  unfolding ◌===◌
  apply_security-IsSecured = record {
    keeps = apply_security-keeps security headers;
    options = secured-static (codes "x-content-type-options") refl (static-options headers);
    referrer = secured-static (codes "referrer-policy") refl (static-referrer headers);
    frames = secured-static (codes "x-frame-options") refl (static-frames headers);
    csp = secured-csp;
    no_csp = secured-no_csp;
    others = λ name (differs, rest). secured-static name differs (static-other headers name rest);
  }
