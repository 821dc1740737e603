-- ===== src/Csrf/Values.antt =====
-- What `csrfCookieValue` reads.
use borgo.Common.{◌≡◌, ◌≢◌, sym, ◌↔◌, true, List, [], ◌∷◌, Option, none, some, All, arith}
use borgo.Text.{Text, ===_iff}
use borgo.Csrf.{csrf_cookie, cookie_parts, agreed_value, csrf_cookie_value, has_value}

-- A part of the header that gives the cookie no value but this one.
abbrev pub GivesOnly : Text → Option Text → Type 0
GivesOnly t none = Unit
GivesOnly t (some value) = value ≡ t

agreed_value-some_iff :
    (value : Text) (parts : List (Option Text)) (t : Text)
    → t ≢ []
    → (agreed_value (some value) parts ≡ t) ↔ ((value ≡ t) × All (GivesOnly t) parts)
unfolding agreed_value
agreed_value-some_iff value [] t full = (λ e. (e, tt), λ (e, _). e)
agreed_value-some_iff value (none ∷ parts) t full =
    ground (arith, agreed_value-some_iff value parts t full)
agreed_value-some_iff value (some found ∷ parts) t full =
    ground (arith, agreed_value-some_iff found parts t full, ===_iff value found)

agreed_value_iff :
    (parts : List (Option Text)) (t : Text)
    → t ≢ []
    → (agreed_value none parts ≡ t) ↔ ((has_value parts ≡ true) × All (GivesOnly t) parts)
unfolding agreed_value has_value
agreed_value_iff [] t full = (λ e. absurd (full (sym e)), λ (e, _). absurd (ground arith))
agreed_value_iff (none ∷ parts) t full = ground (arith, agreed_value_iff parts t full)
agreed_value_iff (some found ∷ parts) t full =
    ground (arith, agreed_value-some_iff found parts t full)

-- A token is read from a cookie header exactly when a part of the header gives the cookie a value,
-- and no part gives it another one.
pub csrf_cookie_value_iff :
    (header : Option Text) (t : Text)
    → t ≢ []
    → (csrf_cookie_value header ≡ t) ↔ (
        (has_value (cookie_parts header csrf_cookie) ≡ true)
        × All (GivesOnly t) (cookie_parts header csrf_cookie))
unfolding csrf_cookie_value
csrf_cookie_value_iff header t full = agreed_value_iff (cookie_parts header csrf_cookie) t full
