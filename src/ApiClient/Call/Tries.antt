-- ===== src/ApiClient/Call/Tries.antt =====
-- How often a call is tried, and what it returns.
use borgo.Common.{
  ℕ, zero, suc, ◌+◌, ◌≤◌, ◌<◌, ◌≡◌, refl, sym, ◌∙◌, Bool, true, false, not, ◌&&◌, ltb, subst, List,
  [], arith, Bool-cases, inl, inr,
}
use borgo.Text.{Text}
use borgo.Result.{Result, thrown, value, ◌>>=◌}
use borgo.Maps.{Map}
use borgo.ApiClient.{Fault}
use borgo.ApiClient.Request.{Options, Init, init_of}
use borgo.ApiClient.Answer.{timed_out, conclude}
use borgo.ApiClient.Call.{
  Attempt, answered, failed, is_conn_refused, is_retried, settle, Called, fetch_from, cookies_of,
  call_with, call,
}

-- the connection was refused, within the deadline
abbrev pub Refused : {J : Type 0} → Attempt J → Type 0
Refused (answered a) = ⊥
Refused (failed f) = (timed_out f ≡ false) × (is_conn_refused f ≡ true)

-- The attempt numbered `last` is the first that may not be tried again, or the last that is allowed.
pub record IsLast {J : Type 0} (sends : ℕ → Attempt J) (limit last : ℕ) : Type 0 where
  pub allowed : last ≤ limit
  pub refused_before : (k : ℕ) → k < last → Refused (sends k)
  pub no_sooner : last < limit → ¬ Refused (sends last)

-- A call whose request was refused by the client makes no request; another returns what its last
-- attempt came to, and hands over its cookies.
pub data IsCalled {J : Type 0} (decode : List ℕ → Text) (sends : Init → ℕ → Attempt J) (retries : ℕ)
    : Result Fault Init → Called J → Type 0 where
  unsent :
      (why : Fault)
      → IsCalled decode sends retries
          (thrown why)
          (record { outcome = thrown why; requests = 0; handed = [] })
  sent :
      (init : Init) (last : ℕ)
      → IsLast (sends init) retries last
      → IsCalled decode sends retries (value init) (record {
        outcome = settle (sends init last) >>= conclude decode;
        requests = last + 1;
        handed = cookies_of (settle (sends init last));
      })

both : (late refused : Bool) → (not late && refused) ≡ true → (late ≡ false) × (refused ≡ true)
both false true e = (refl, refl)
both false false e = cc
both true refused e = cc

true-ne-false : true ≡ false → ⊥
true-ne-false e = cc

is_retried-Refused : {J : Type 0} (a : Attempt J) → is_retried a ≡ true → Refused a
unfolding is_retried
is_retried-Refused (answered a) e = cc
is_retried-Refused (failed f) e = both (timed_out f) (is_conn_refused f) e

not-Refused : {J : Type 0} (a : Attempt J) → is_retried a ≡ false → ¬ Refused a
unfolding is_retried
not-Refused (answered a) e h = h
not-Refused (failed f) e (intime, refused) = true-ne-false (sym (rw (intime, refused) refl) ∙ e)

module _ {J : Type 0} (sends : ℕ → Attempt J) where
  one_more :
      (attempt : ℕ)
      → ((k : ℕ) → k < attempt → Refused (sends k))
      → Refused (sends attempt)
      → (k : ℕ) → k < suc attempt
      → Refused (sends k)
  one_more attempt h e k lt = elim (Bool-cases (ltb k attempt)) [
    | inl less ↦ h k (ground arith)
    | inr same ↦
        let at : k ≡ attempt = ground arith in subst (λ (n : ℕ). Refused (sends n)) (sym at) e
  ]

  fetch_from-IsLast :
      (left attempt : ℕ)
      → ((k : ℕ) → k < attempt → Refused (sends k))
      → IsLast sends (left + attempt) (fetch_from sends left attempt).1
        × ((fetch_from sends left attempt).0 ≡ settle (sends (fetch_from sends left attempt).1))
  unfolding fetch_from
  fetch_from-IsLast zero attempt h = (
    record { allowed = omega arith; refused_before = h; no_sooner = λ lt. absurd (omega arith) },
    refl,
  )
  fetch_from-IsLast (suc left) attempt h = elim (Bool-cases (is_retried (sends attempt))) [
    | inl e ↦ rw e (
        let (l, same) =
          fetch_from-IsLast left (suc attempt)
            (one_more attempt h (is_retried-Refused (sends attempt) e)) in
        (
          subst (λ (n : ℕ). IsLast sends n (fetch_from sends left (suc attempt)).1) (omega arith) l,
          same,
        ))
    | inr e ↦ rw e (
      record {
        allowed = omega arith;
        refused_before = h;
        no_sooner = λ lt. λ refused. not-Refused (sends attempt) e refused;
      },
      refl,
    )
  ]

call_with-IsCalled :
    {J : Type 0} (decode : List ℕ → Text) (sends : Init → ℕ → Attempt J) (retries : ℕ)
    (init : Result Fault Init)
    → IsCalled decode sends retries init (call_with decode retries sends init)
unfolding call_with
call_with-IsCalled decode sends retries (thrown why) = unsent why
call_with-IsCalled decode sends retries (value init) =
    let (l, same) = fetch_from-IsLast (sends init) retries 0 (λ k. λ lt. absurd (omega arith)) in
    rw same (
      sent init (fetch_from (sends init) retries 0).1 (
        subst (λ (n : ℕ). IsLast (sends init) n (fetch_from (sends init) retries 0).1) (omega arith)
          l))

-- A call whose route, params or body were refused makes no request. Another tries again only after a
-- refused connection, at most as often as it is told, and never stops before; it returns what its last
-- attempt came to, and hands over the cookies of the answer.
pub call-IsCalled :
    {J : Type 0} (is_url : Text → Bool) (decode : List ℕ → Text) (sends : Init → ℕ → Attempt J)
    (base : Text) (defaults : Map Text) (retries : ℕ) (route : Text) (opts : Options)
    → IsCalled decode sends retries
        (init_of is_url base defaults route opts)
        (call is_url decode sends base defaults retries route opts)
unfolding call
call-IsCalled is_url decode sends base defaults retries route opts =
    call_with-IsCalled decode sends retries (init_of is_url base defaults route opts)
