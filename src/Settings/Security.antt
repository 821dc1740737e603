-- ===== src/Settings/Security.antt =====
-- `cspSetting` and `createSecurity` of packages/borgo/src/util.ts.
pub mod Headers
use borgo.Common.{
  ℕ, ◌≡◌, refl, Bool, true, false, ◌&&◌, ◌||◌, not, List, [], ◌∷◌, ◌++◌, map, Option, none, some,
  is_empty, if◌then◌else◌, ◌==◌,
}
use borgo.Text.{
  Text, codes, or_empty, includes, trim, is_space, to_lower, contains, replace_all, listed,
  has_prefix,
}
use borgo.Result.{Result, thrown, value, ◌>>=◌}
use borgo.Params.{Params, get, put}
use borgo.Settings.{Env, Setting, bare_word, refused_by_headers, env_text, boolish, env_bool}

abbrev pub csp_default : Text
csp_default =
    codes "default-src 'self'; base-uri 'none'; object-src 'none'; frame-ancestors 'none'; "
    ++ (codes "form-action 'self'; img-src 'self' data: blob:; font-src 'self' data:; "
        ++ codes "style-src 'self' 'unsafe-inline'; connect-src 'self'; script-src 'self'")

abbrev pub switch_words : List Text
switch_words = map codes (
    "0" ∷ "1" ∷ "t" ∷ "f" ∷ "true" ∷ "false" ∷ "yes" ∷ "no" ∷ "on" ∷ "off" ∷ "enable" ∷ "disable"
    ∷ "enabled" ∷ "disabled" ∷ "none" ∷ "null" ∷ "nil" ∷ "unset" ∷ "default" ∷ [])

-- `value.replace(/[\s;]+/g, " ")`, told whether a run has begun
squeeze : Bool → Text → Text
squeeze began [] = []
squeeze began (c ∷ s) =
    let run = squeeze true s in
    let kept = c ∷ squeeze false s in
    if is_space c || c == b';' then (if began then run else b' ' ∷ run) else kept

-- whether `value.split(/\s+/)` has two pieces that are not empty, told what came before
two_words : Bool → Bool → Text → Bool
two_words one spaced [] = false
two_words one spaced (c ∷ s) =
    let on_space = two_words one one s in
    let on_word = two_words true false s in
    if is_space c then on_space else if spaced then true else on_word

-- `looksLikeAPolicy`
unfoldable pub looks_like_a_policy : Text → Bool
unfolding squeeze two_words
looks_like_a_policy v =
    not (listed (map to_lower (trim (squeeze false v))) switch_words)
    && (includes b';' v || two_words false false v)

-- the csp of the operator: the switch off, borgo's own policy, or a policy
pub data Csp : Type 0 where
  off own : Csp
  policy : Text → Csp

abbrev pub nonce_mark : Text
nonce_mark = codes "{nonce}"

module _ (headers_refuses : Text → Bool) where
  unfoldable pub policy_of : Text → Setting Csp
  policy_of raw =
      if not (looks_like_a_policy raw)
      then thrown (bare_word raw)
      else if headers_refuses (replace_all nonce_mark [] raw)
          || headers_refuses (replace_all nonce_mark (codes " 'nonce-probe'") raw)
      then thrown (refused_by_headers raw)
      else value (policy raw)

  unfoldable pub csp_of : Option Text → Setting Csp
  csp_of none = value own
  csp_of (some raw) = elim (boolish raw) [
    | some asked ↦ value (if asked then own else off)
    | none ↦ policy_of raw
  ]

  -- `cspSetting`
  unfoldable pub csp_setting : Option Text → Setting Csp
  unfolding csp_of
  csp_setting v = do raw ← env_text (codes "BORGO_CSP") v; csp_of raw

-- What `createSecurity` closes over: whether a csp is sent, and its template.
pub record Security : Type 0 where
  pub enabled : Bool
  pub template : Text

unfoldable pub template_of : Bool → Csp → Text
template_of dev (policy raw) = raw
template_of true _ = csp_default ++ codes " 'unsafe-inline'"
template_of false _ = csp_default ++ nonce_mark

abbrev pub is_on : Csp → Bool
is_on off = false
is_on _ = true

unfoldable pub security_of : Bool → Csp → Security
unfolding template_of
security_of dev csp = record { enabled = is_on csp; template = template_of dev csp }

abbrev pub is_off : Option Bool → Bool
is_off (some false) = true
is_off _ = false

-- `createSecurity`; `none` is null, no headers at all
unfoldable pub create_security :
    (Text → Bool) → Bool → Option Text → Option Text → Setting (Option Security)
create_security headers_refuses dev headers csp = do
  asked ← env_bool (codes "BORGO_SECURITY_HEADERS") headers
  if is_off asked
      then value none
      else csp_setting headers_refuses csp >>= (λ found. value (some (security_of dev found)))

-- `needsNonce`, `cspFor` and `apply`
unfoldable pub needs_nonce : Security → Bool
needs_nonce security = security.enabled && contains nonce_mark security.template

unfoldable pub csp_for : Security → Text → Text
csp_for security nonce =
    replace_all nonce_mark (codes " 'nonce-" ++ (nonce ++ codes "'")) security.template

abbrev pub static_security : Params
static_security =
    (codes "x-content-type-options", codes "nosniff")
    ∷ (codes "referrer-policy", codes "strict-origin-when-cross-origin")
    ∷ (codes "x-frame-options", codes "DENY")
    ∷ []

-- `if (!headers.has(name)) headers.set(name, value)`
unfoldable pub set_missing : Text → Text → Params → Params
set_missing name v headers = elim (get name headers) [
  | some _ ↦ headers
  | none ↦ put name v headers
]

unfoldable pub set_all_missing : Params → Params → Params
set_all_missing [] headers = headers
set_all_missing ((name, v) ∷ rest) headers = set_all_missing rest (set_missing name v headers)

unfoldable pub is_document : Params → Bool
is_document headers =
    let type = map to_lower (or_empty (get (codes "content-type") headers)) in
    has_prefix (codes "text/html") type || has_prefix (codes "image/svg+xml") type

abbrev pub csp_header : Text
csp_header = codes "content-security-policy"

unfoldable pub apply_csp : Security → Params → Params
apply_csp security headers =
    if security.enabled && is_document headers
    then set_missing csp_header (replace_all nonce_mark [] security.template) headers
    else headers

unfoldable pub apply_security : Security → Params → Params
apply_security security headers = apply_csp security (set_all_missing static_security headers)
