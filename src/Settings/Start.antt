-- ===== src/Settings/Start.antt =====
-- The environment that `borgo start` launches itself with.
use borgo.Common.{◌≡◌, refl, false, Option, none, some, is_empty, Bool-cases, inl, inr}
use borgo.Text.{Text, codes, trim, trim_start, trim_end, is_space, trim_idempotent, ◌===◌}
use borgo.Params.{get, put, get-put}
use borgo.Settings.{
  Env, or_else, settled, pool_variable, mode_variable, with_start_env, is_missing,
  start_needs_reexec,
}

settled-or_else :
    (o : Option Text) (fallback : Text)
    → is_empty (trim fallback) ≡ false
    → is_missing (settled (some (or_else (settled o) fallback))) ≡ false
unfolding settled is_missing
settled-or_else none fallback h = rw h refl
settled-or_else (some v) fallback h = elim (Bool-cases (is_empty (trim v))) [
  | inl blank ↦ rw blank (rw h refl)
  | inr full ↦ rw full (rw (trim_idempotent v, full) refl)
]

production_full : is_empty (trim (codes "production")) ≡ false
unfolding trim trim_start trim_end is_space
production_full = refl

pool_full : is_empty (trim (codes "16384")) ≡ false
unfolding trim trim_start trim_end is_space
pool_full = refl

-- One launch settles the environment: whatever it held, the process started with it, and with the
-- supervisor's pid set, needs no further launch.
pub start_needs_reexec-with_start_env :
    (env : Env) (pid : Text)
    → start_needs_reexec (put (codes "BORGO_SUPERVISOR_PID") pid (with_start_env env env)) ≡ false
unfolding start_needs_reexec with_start_env ◌===◌
start_needs_reexec-with_start_env env pid = simp (
  get-put,
  settled-or_else (get pool_variable env) (codes "16384") pool_full,
  settled-or_else (get mode_variable env) (codes "production") production_full,
)
