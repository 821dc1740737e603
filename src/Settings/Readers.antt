-- ===== src/Settings/Readers.antt =====
-- What the readers of the environment take.
use borgo.Common.{
  ◌≡◌, refl, ap, ◌∙◌, Bool, true, false, ℕ, Option, none, some, is_empty, any, arith,
}
use borgo.Text.{Text, listed}
use borgo.Result.{value, value-eq, >>=-value}
use borgo.Params.{get}
use borgo.Settings.{
  Env, is_control, env_text, bool_false, boolish, switch_of, env_bool, Numeric, whole,
  whole_number_of, env_int, env_flag, or_else,
}

-- A value that a reader looks at: one that is set, not empty and without control characters.
pub env_text-some :
    (name : Text) (o : Option Text) {v : Text}
    → env_text name o ≡ value (some v)
    → (o ≡ some v) × (is_empty v ≡ false) × (any is_control v ≡ false)
unfolding env_text
env_text-some name none e = cc
env_text-some name (some v) e = ground arith

switch_of-some :
    (name : Text) (o : Option Text) {b : Bool}
    → switch_of name o ≡ value (some b)
    → (v : Text) × (o ≡ some v) × (boolish v ≡ some b)
unfolding switch_of
switch_of-some name none e = cc
switch_of-some name (some v) {b} e = (v, refl, ground arith)

pub env_bool-some :
    (name : Text) (o : Option Text) {b : Bool}
    → env_bool name o ≡ value (some b)
    → (v : Text) × (o ≡ some v) × (boolish v ≡ some b)
unfolding env_bool
env_bool-some name o e =
    let (text, read, parsed) = >>=-value (env_text name o) (switch_of name) e in
    let (v, is_v, spelled) = switch_of-some name text parsed in
    (v, (env_text-some name o (read ∙ ap value is_v)).0, spelled)

pub boolish-false : (v : Text) → boolish v ≡ some false → listed v bool_false ≡ true
unfolding boolish
boolish-false v e = ground arith

-- A variable that is set to a spelling of false.
unfoldable pub IsSetFalse : Text → Env → Type 0
IsSetFalse name env = (v : Text) × (get name env ≡ some v) × (listed v bool_false ≡ true)

pub env_bool-IsSetFalse :
    (name : Text) (env : Env)
    → env_bool name (get name env) ≡ value (some false)
    → IsSetFalse name env
unfolding IsSetFalse
env_bool-IsSetFalse name env e =
    let (v, is_v, spelled) = env_bool-some name (get name env) e in
    (v, is_v, boolish-false v spelled)

or_else-false : (o : Option Bool) → or_else o true ≡ false → o ≡ some false
or_else-false none h = cc
or_else-false (some b) h = ap some h

pub env_flag-IsSetFalse :
    (name : Text) (env : Env) → env_flag name true env ≡ value false → IsSetFalse name env
unfolding env_flag
env_flag-IsSetFalse name env e =
    let (flag, read, given) =
      >>=-value (env_bool name (get name env)) (λ flag. value (or_else flag true)) e in
    env_bool-IsSetFalse name env (read ∙ ap value (or_else-false flag (value-eq given)))

module _ (number : Text → Numeric) where
  whole_number_of-some :
      (name : Text) (o : Option Text) {n : ℕ}
      → whole_number_of number name o ≡ value (some n)
      → (v : Text) × (o ≡ some v) × (number v ≡ whole n)
  unfolding whole_number_of
  whole_number_of-some name none e = cc
  whole_number_of-some name (some v) e = (v, refl, ground arith)

  pub env_int-some :
      (name : Text) (o : Option Text) {n : ℕ}
      → env_int number name o ≡ value (some n)
      → (v : Text) × (o ≡ some v) × (number v ≡ whole n)
  unfolding env_int
  env_int-some name o e =
      let (text, read, parsed) = >>=-value (env_text name o) (whole_number_of number name) e in
      let (v, is_v, spelled) = whole_number_of-some name text parsed in
      (v, (env_text-some name o (read ∙ ap value is_v)).0, spelled)
