-- ===== src/Settings/Topology.antt =====
-- The two halves of an app: `frontTopology`, the environments that it makes and the switches that a
-- render service reads from one, in packages/borgo/src/util.ts.
pub mod Decimal
pub mod Agree
use borgo.Common.{
  ℕ, zero, suc, ◌+◌, ◌-◌, ◌/◌, ◌%◌, ◌≡◌, refl, Bool, true, false, ◌&&◌, ◌||◌, not, List, [], ◌∷◌,
  ◌++◌, Option, none, some, if◌then◌else◌, length, ltb,
}
use borgo.Text.{Text, codes, or_empty, ◌===◌}
use borgo.Result.{Result, thrown, value, ◌>>=◌}
use borgo.Params.{Params, get, put}
use borgo.Settings.{
  Env, Setting, SettingError, Numeric, not_a_port, no_internal_key, no_render_port,
  unresolved_render_port, or_else, env_int, env_bool, env_flag, dev_mode, reload_banner,
  session_secure, csrf_enabled,
}
use borgo.Settings.Security.{Security, create_security}

abbrev pub internal_key_min_len : ℕ
internal_key_min_len = 32

abbrev pub max_body_bytes : ℕ
max_body_bytes = 33554432

abbrev pub render_port_variable : Text
render_port_variable = codes "BORGO_RENDER_PORT"

abbrev pub key_variable : Text
key_variable = codes "BORGO_INTERNAL_KEY"

abbrev pub render_variable : Text
render_variable = codes "BORGO_RENDER"

-- `String(n)` of a whole number, with as many rounds as it has digits at most
unfoldable pub decimal_from : ℕ → ℕ → Text → Text
decimal_from zero n digits = digits
decimal_from (suc rounds) n digits =
    let rest = decimal_from rounds (n / 10) ((b'0' + n % 10) ∷ digits) in
    if ltb n 10 then (b'0' + n) ∷ digits else rest

unfoldable pub decimal_text : ℕ → Text
unfolding decimal_from
decimal_text n = decimal_from (suc n) n []

-- a digit of `b.toString(16)`
abbrev pub hex_digit : ℕ → ℕ
hex_digit n = if ltb n 10 then b'0' + n else 87 + n

-- `mintInternalKey`, of its random bytes
unfoldable pub mint_internal_key : List ℕ → Text
mint_internal_key [] = []
mint_internal_key (b ∷ bytes) = hex_digit (b / 16) ∷ hex_digit (b % 16) ∷ mint_internal_key bytes

unfoldable pub checked_port : Option ℕ → Setting (Option ℕ)
checked_port none = value none
checked_port (some port) =
    if ltb port 1 || ltb 65535 port then thrown (not_a_port port) else value (some port)

-- `FrontTopology`
pub record FrontTopology : Type 0 where
  pub public_port : ℕ
  pub api_port : ℕ
  pub render_port : ℕ
  pub key : Text

-- the render half of the switches
pub record RenderSwitches : Type 0 where
  pub render : Bool
  pub internal_key : Text
  pub render_port : ℕ

-- `Switches`
pub record Switches : Type 0 where
  pub dev : Bool
  pub security : Option Security
  pub csrf_enforced : Bool
  pub csrf_cookie_attrs : Text
  pub reloading : Bool
  pub max_body : ℕ
  pub of_render : RenderSwitches

-- the key of the operator, if it is long enough, or a minted one
unfoldable pub boot_key : List ℕ → Env → Text
boot_key random env =
    let key = or_empty (get key_variable env) in
    if ltb (length key) internal_key_min_len then mint_internal_key random else key

-- `setting ?? (() => { throw why })()`
abbrev pub required : {A : Type 0} → SettingError → Option A → Setting A
required why none = thrown why
required why (some a) = value a

-- `if (test) throw why`
abbrev pub refuse_if : Bool → SettingError → Setting (Unit {0})
refuse_if true why = thrown why
refuse_if false why = value tt

abbrev pub is_none {ℓ} : {A : Type ℓ} → Option A → Bool
is_none none = true
is_none (some _) = false

module _ (number : Text → Numeric) where
  -- `namedRenderPort`
  unfoldable pub named_render_port : Env → Setting (Option ℕ)
  unfolding checked_port
  named_render_port env = do
    port ← env_int number render_port_variable (get render_port_variable env)
    checked_port port

  -- `frontTopology`; `random` is what `crypto.getRandomValues` fills in
  unfoldable pub front_topology : List ℕ → Env → Setting FrontTopology
  front_topology random env = do
    public_port ← env_int number (codes "PORT") (get (codes "PORT") env)
    api_port ← env_int number (codes "API_PORT") (get (codes "API_PORT") env)
    named ← named_render_port env
    render_port ← required unresolved_render_port named
    value (record {
      public_port = or_else public_port 3000;
      api_port = or_else api_port 3501;
      render_port = render_port;
      key = boot_key random env;
    })

  -- `renderSwitches`
  unfoldable pub render_switches : Env → Setting RenderSwitches
  render_switches env = do
    render ← env_flag render_variable false env
    let key = or_empty (get key_variable env)
    checked ← refuse_if (render && ltb (length key) internal_key_min_len) no_internal_key
    port ← named_render_port env
    checked_port ← refuse_if (render && is_none port) no_render_port
    value (record { render = render; internal_key = key; render_port = or_else port 0 })

  -- `resolveSwitches`
  unfoldable pub resolve_switches : (Text → Bool) → Bool → Env → Setting Switches
  resolve_switches headers_refuses dev env = do
    security ←
        create_security headers_refuses dev (get (codes "BORGO_SECURITY_HEADERS") env)
          (get (codes "BORGO_CSP") env)
    csrf_enforced ← csrf_enabled dev env
    secure ← session_secure env
    reloading ← reload_banner env
    max_body ← env_int number (codes "BORGO_MAX_BODY") (get (codes "BORGO_MAX_BODY") env)
    of_render ← render_switches env
    value (record {
      dev = dev;
      security = security;
      csrf_enforced = csrf_enforced;
      csrf_cookie_attrs = codes "Path=/; SameSite=Lax" ++ (if secure then codes "; Secure" else []);
      reloading = reloading;
      max_body = or_else max_body max_body_bytes;
      of_render = of_render;
    })

-- `renderEnv`, spread over an environment
unfoldable pub with_render_env : FrontTopology → Env → Env
with_render_env t env = put (codes "API_PORT") (decimal_text t.api_port) (
    put key_variable t.key
      (put render_port_variable (decimal_text t.render_port) (put render_variable (codes "1") env)))

-- `goFrontEnv`, spread over an environment
unfoldable pub with_go_front_env : FrontTopology → Env → Env
with_go_front_env t env =
    put (codes "BORGO_RENDER_URL") (codes "http://127.0.0.1:" ++ decimal_text t.render_port) (
      put key_variable t.key (
        put (codes "API_PORT") (decimal_text t.api_port)
          (put (codes "PORT") (decimal_text t.public_port) env)))

unfoldable pub without_two : Text → Text → Env → Env
without_two a b [] = []
without_two a b ((name, v) ∷ env) =
    let rest = without_two a b env in if name === a || name === b then rest else (name, v) ∷ rest

-- `withoutRenderEnv`
unfoldable pub without_render_env : Env → Env
unfolding without_two
without_render_env env = without_two render_variable render_port_variable env
