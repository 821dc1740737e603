-- ===== src/Csrf/Accepts.antt =====
-- What `csrfRejects` lets through.
use borgo.Common.{
  ◌≡◌, ◌≢◌, refl, ◌↔◌, ◌⊎◌, inl, inr, true, false, [], ◌∷◌, Option, is_empty, All, arith,
}
use borgo.Text.{Text, codes}
use borgo.Keys.{keys_equal}
use borgo.Csrf.{csrf_cookie, cookie_parts, csrf_cookie_value, has_value, has_cookie, csrf_rejects}
use borgo.Csrf.Values.{GivesOnly, csrf_cookie_value_iff}

is_empty_iff : (t : Text) → (is_empty t ≡ false) ↔ (t ≢ [])
is_empty_iff [] = (λ e. cc, λ full. absurd (full refl))
is_empty_iff (c ∷ t) = (λ _ e. cc, λ _. refl)

-- A post that is let through although it brings a cookie of the app: its token is the one that the
-- cookies agree on.
pub record Echoes (cookies : Option Text) (given : Text) : Type 0 where
  pub token : Text
  pub is_token : token ≢ []
  pub has : has_value (cookie_parts cookies csrf_cookie) ≡ true
  pub agree : All (GivesOnly token) (cookie_parts cookies csrf_cookie)
  pub is_given : given ≢ []
  pub same : keys_equal given token ≡ true

passes_tests :
    (cookies : Option Text) (given : Text)
    → (csrf_rejects true cookies given ≡ false) ↔ (
        ((has_cookie cookies (codes "borgo_session") ≡ false)
          × (has_cookie cookies csrf_cookie ≡ false))
        ⊎ ((is_empty (csrf_cookie_value cookies) ≡ false)
            × (is_empty given ≡ false)
            × (keys_equal given (csrf_cookie_value cookies) ≡ true)))
unfolding csrf_rejects
passes_tests cookies given = ground arith

-- Where the check is enforced, a post is let through exactly when it brings neither the session's
-- cookie nor the token's, or its form has a token that equals the only one that its cookies give.
pub csrf_rejects-false_iff :
    (cookies : Option Text) (given : Text)
    → (csrf_rejects true cookies given ≡ false) ↔ (
        ((has_cookie cookies (codes "borgo_session") ≡ false)
          × (has_cookie cookies csrf_cookie ≡ false))
        ⊎ Echoes cookies given)
csrf_rejects-false_iff cookies given = (
  λ h. elim ((passes_tests cookies given).0 h) [
    | inl neither ↦ inl neither
    | inr (read, given_one, equal) ↦
        let full = (is_empty_iff (csrf_cookie_value cookies)).0 read in
        let (has, agree) =
          (csrf_cookie_value_iff cookies (csrf_cookie_value cookies) full).0 refl in
        inr (record {
          token = csrf_cookie_value cookies;
          is_token = full;
          has = has;
          agree = agree;
          is_given = (is_empty_iff given).0 given_one;
          same = equal;
        })
  ],
  λ h. elim h [
    | inl neither ↦ (passes_tests cookies given).1 (inl neither)
    | inr echoes ↦
        let read =
          (csrf_cookie_value_iff cookies echoes.token echoes.is_token).1
            (echoes.has, echoes.agree) in
        (passes_tests cookies given).1 (
          inr (
            rw read ((is_empty_iff echoes.token).1 echoes.is_token),
            (is_empty_iff given).1 echoes.is_given,
            rw read echoes.same,
          ))
  ],
)
