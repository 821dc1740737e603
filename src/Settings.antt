-- ===== src/Settings.antt =====
-- How packages/borgo/src/util.ts reads the environment: `envText`, `envBool`, `envInt` and the
-- switches that they decide.
pub mod Security
pub mod Topology
pub mod Start
pub mod Readers
pub mod Defaults
use borgo.Common.{
  ℕ, ◌≡◌, refl, Bool, true, false, ◌&&◌, ◌||◌, not, List, [], ◌∷◌, Option, none, some, is_empty,
  any, if◌then◌else◌, leb, ◌==◌,
}
use borgo.Text.{Text, codes, ◌===◌, within, trim, listed, or_empty}
use borgo.Result.{Result, thrown, value, ◌>>=◌}
use borgo.Params.{Params, get, put}

-- The environment of a process: its variables that are set.
abbrev pub Env : Type 0
Env = Params

-- Why a value is refused; each message quotes its variable and its value.
pub data SettingError : Type 0 where
  control_character not_a_switch not_a_whole_number : (name v : Text) → SettingError
  not_a_port : ℕ → SettingError
  bare_word refused_by_headers : (csp : Text) → SettingError
  no_internal_key no_render_port unresolved_render_port : SettingError

abbrev pub Setting : Type 0 → Type 0
Setting A = Result SettingError A

-- `setting ?? fallback`
abbrev pub or_else {ℓ} : {A : Type ℓ} → Option A → A → A
or_else none fallback = fallback
or_else (some a) fallback = a

-- `/[\u0000-\u001f\u007f]/`
abbrev pub is_control : ℕ → Bool
is_control c = leb c 0x1F || c == 0x7F

-- `envText`
unfoldable pub env_text : Text → Option Text → Setting (Option Text)
env_text name none = value none
env_text name (some v) =
    if is_empty v
    then value none
    else if any is_control v
    then thrown (control_character name v)
    else value (some v)

abbrev pub bool_true : List Text
bool_true = codes "1" ∷ codes "t" ∷ codes "T" ∷ codes "true" ∷ codes "TRUE" ∷ codes "True" ∷ []

abbrev pub bool_false : List Text
bool_false = codes "0" ∷ codes "f" ∷ codes "F" ∷ codes "false" ∷ codes "FALSE" ∷ codes "False" ∷ []

-- `boolish`
unfoldable pub boolish : Text → Option Bool
boolish v =
    if listed v bool_true then some true else if listed v bool_false then some false else none

unfoldable pub switch_of : Text → Option Text → Setting (Option Bool)
switch_of name none = value none
switch_of name (some v) = elim (boolish v) [
  | some parsed ↦ value (some parsed)
  | none ↦ thrown (not_a_switch name v)
]

-- `envBool`
unfoldable pub env_bool : Text → Option Text → Setting (Option Bool)
unfolding switch_of
env_bool name v = do text ← env_text name v; switch_of name text

-- What `Number` makes of a text: a whole number that is not negative, a fraction above 0, or another
-- (negative, infinite, or not a number).
pub data Numeric : Type 0 where
  whole fraction : ℕ → Numeric
  other_number : Numeric

module _ (number : Text → Numeric) where
  unfoldable pub whole_number_of : Text → Option Text → Setting (Option ℕ)
  whole_number_of name none = value none
  whole_number_of name (some v) =
      if is_empty (trim v) then thrown (not_a_whole_number name v) else elim (number v) [
        | whole n ↦ value (some n)
        | fraction floor ↦ thrown (not_a_whole_number name v)
        | other_number ↦ thrown (not_a_whole_number name v)
      ]

  -- `envInt`
  unfoldable pub env_int : Text → Option Text → Setting (Option ℕ)
  unfolding whole_number_of
  env_int name v = do text ← env_text name v; whole_number_of name text

unfoldable pub env_flag : Text → Bool → Env → Setting Bool
env_flag name fallback env = do flag ← env_bool name (get name env); value (or_else flag fallback)

-- `devMode`, `reloadBanner`, `sessionSecure` and `csrfEnabled`
abbrev pub dev_mode : Env → Setting Bool
dev_mode = env_flag (codes "BORGO_DEV") false

abbrev pub reload_banner : Env → Setting Bool
reload_banner = env_flag (codes "BORGO_RELOAD") false

abbrev pub session_secure : Env → Setting Bool
session_secure = env_flag (codes "SESSION_SECURE") false

abbrev pub csrf_enabled : Bool → Env → Setting Bool
csrf_enabled dev = env_flag (codes "BORGO_CSRF") (not dev)

-- a value that is set and not blank, trimmed
unfoldable pub settled : Option Text → Option Text
settled none = none
settled (some v) = if is_empty (trim v) then none else some (trim v)

abbrev pub pool_variable : Text
pool_variable = codes "BUN_CONFIG_MAX_HTTP_REQUESTS"

abbrev pub mode_variable : Text
mode_variable = codes "NODE_ENV"

-- `startEnv`, spread over an environment
unfoldable pub with_start_env : Env → Env → Env
unfolding settled
with_start_env source env =
    put mode_variable (or_else (settled (get mode_variable source)) (codes "production"))
      (put pool_variable (or_else (settled (get pool_variable source)) (codes "16384")) env)

is_missing : Option Text → Bool
is_missing none = true
is_missing (some _) = false

-- `startNeedsReexec`
unfoldable pub start_needs_reexec : Env → Bool
unfolding settled is_missing
start_needs_reexec env =
    is_missing (settled (get pool_variable env)) || is_missing (settled (get mode_variable env))
