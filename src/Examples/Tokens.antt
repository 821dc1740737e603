-- ===== src/Examples/Tokens.antt =====
-- The double-submit token, at concrete inputs.
use borgo.Common.{◌≡◌, ◌≢◌, refl, ◌↔◌, ◌⊎◌, true, false, [], Option, none, some, All}
use borgo.Text.{Text, codes, ◌===◌, split, trim}
use borgo.Keys.{utf8_bytes, buffer_from, keys_equal}
use borgo.Csrf.{
  cut, named_value, csrf_cookie, cookie_parts, agreed_value, csrf_cookie_value, has_value,
  has_cookie, csrf_rejects,
}
use borgo.Csrf.Values.{GivesOnly, csrf_cookie_value_iff}
use borgo.Csrf.Accepts.{Echoes, csrf_rejects-false_iff}

tokens : Unit {0}
unfolding ◌===◌ split trim utf8_bytes buffer_from keys_equal cut named_value agreed_value
    csrf_cookie_value has_value has_cookie csrf_rejects
tokens = tt

abbrev one_token : Option Text
one_token = some (codes "a=b; borgo_csrf= t=1 ; borgo_csrf=t=1")

cookie_tests :
    (csrf_cookie_value one_token ≡ codes "t=1")
    × (csrf_cookie_value (some (codes "borgo_csrf=t; borgo_csrf=u")) ≡ [])
    × (csrf_cookie_value none ≡ [])
    × (has_cookie (some (codes "borgo_session=")) (codes "borgo_session") ≡ true)
    × (has_cookie (some (codes "borgo_session")) (codes "borgo_session") ≡ false)
unfolding tokens
cookie_tests = (refl, refl, refl, refl, refl)

csrf_tests :
    (csrf_rejects true one_token (codes "t=1") ≡ false)
    × (csrf_rejects true one_token [] ≡ true)
    × (csrf_rejects true (some (codes "borgo_session=s")) (codes "t") ≡ true)
    × (csrf_rejects true (some (codes "a=b")) [] ≡ false)
unfolding tokens
csrf_tests = (refl, refl, refl, refl)

token_full : codes "t=1" ≢ []
token_full e = cc

csrf_cookie_value_iff_example : (csrf_cookie_value one_token ≡ codes "t=1") ↔ (
    (has_value (cookie_parts one_token csrf_cookie) ≡ true)
    × All (GivesOnly (codes "t=1")) (cookie_parts one_token csrf_cookie))
csrf_cookie_value_iff_example = csrf_cookie_value_iff one_token (codes "t=1") token_full

csrf_rejects-false_iff_example : (csrf_rejects true one_token (codes "t=1") ≡ false) ↔ (
    ((has_cookie one_token (codes "borgo_session") ≡ false)
      × (has_cookie one_token csrf_cookie ≡ false))
    ⊎ Echoes one_token (codes "t=1"))
csrf_rejects-false_iff_example = csrf_rejects-false_iff one_token (codes "t=1")
