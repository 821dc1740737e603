-- ===== src/Guard/Decide/Doors.antt =====
-- `answerForDoor`: a middleware's answer, shaped for the door that asked.
use borgo.Common.{
  ℕ, ◌≤◌, ◌<◌, ◌≡◌, ◌≢◌, refl, sym, ap, ◌∙◌, inl, inr, Option-cases, Bool-cases, some-eq, Bool,
  true, false, ◌&&◌, ◌||◌, [], ◌∷◌, ltb, leb, Option, none, some, if◌then◌else◌, is_empty, arith,
}
use borgo.Text.{Text, codes, ◌===◌}
use borgo.Guard.Decide.{Headers}

-- What the door tests of a request: the `__borgo` query parameter, the method and the
-- `x-borgo-action` header.
pub record Asked : Type 0 where
  pub wants : Option Text
  pub method : Text
  pub action : Option Text

-- What the door tests of a response, and the whole of it; an answer is a response passed on, or
-- the json `{ redirect }` with its headers.
pub record Response : Type 0 where
  pub status : ℕ
  pub location : Option Text

pub data Sent : Type 0 where
  as_is : Response → Sent
  redirect_json : (location : Text) → Headers → Sent

abbrev pub is_text : Option Text → Text → Bool
is_text none t = false
is_text (some s) t = s === t

unfoldable pub is_props : Asked → Bool
is_props asked = is_text asked.wants (codes "props")

unfoldable pub is_action : Asked → Bool
is_action asked = asked.method === codes "POST" && is_text asked.action (codes "1")

abbrev pub no_store : Headers
no_store = (codes "Cache-Control", codes "private, no-store") ∷ []

abbrev pub action_mark : Headers
action_mark = (codes "X-Borgo", codes "action") ∷ no_store

-- `!location` holds of no header and of an empty one
unfoldable pub redirect_target : Response → Option Text
redirect_target response = elim response.location [
  | none ↦ none
  | some location ↦
      if is_empty location || ltb response.status 300 || leb 400 response.status
      then none
      else some location
]

unfoldable pub answer_for_door : Asked → Response → Sent
answer_for_door asked response = elim (redirect_target response) [
  | none ↦ as_is response
  | some location ↦
      if is_props asked
      then redirect_json location no_store
      else if is_action asked
      then redirect_json location action_mark
      else as_is response
]

-- A response that sends the client elsewhere.
pub record IsRedirect (response : Response) (location : Text) : Type 0 where
  pub there : response.location ≡ some location
  pub filled : location ≢ []
  pub from_300 : 300 ≤ response.status
  pub under_400 : response.status < 400

-- How a response is shaped for the door that asked: a redirect becomes the json that names its target,
-- for the two doors that the client runtime reads as json; everything else is passed on as it is.
pub data Shaped (asked : Asked) (response : Response) : Sent → Type 0 where
  unmoved :
      ((location : Text) → ¬ IsRedirect response location) → Shaped asked response (as_is response)
  unread : is_props asked ≡ false → is_action asked ≡ false → Shaped asked response (as_is response)
  told_props :
      {location : Text}
      → IsRedirect response location
      → is_props asked ≡ true
      → Shaped asked response
          (redirect_json location ((codes "Cache-Control", codes "private, no-store") ∷ []))
  told_action :
      {location : Text}
      → IsRedirect response location
      → is_props asked ≡ false
      → is_action asked ≡ true
      → Shaped asked response (
          redirect_json location (
            (codes "X-Borgo", codes "action")
            ∷ ((codes "Cache-Control", codes "private, no-store") ∷ [])))

none-not-some : {A : Type 0} {a : A} → ◌≢◌ {A = Option A} none (some a)
none-not-some e = cc

-- the test of a location and a status
abbrev stays : Text → ℕ → Bool
stays location status = is_empty location || ltb status 300 || leb 400 status

stays-false :
    (location : Text) (status : ℕ)
    → stays location status ≡ false
    → (location ≢ []) × (300 ≤ status) × (status < 400)
stays-false [] status e = cc
stays-false (c ∷ location) status e = (cc, ground arith, ground arith)

moves-stays :
    (location : Text) (status : ℕ)
    → location ≢ []
    → 300 ≤ status
    → status < 400
    → stays location status ≡ false
moves-stays [] status filled from under = absurd (filled refl)
moves-stays (c ∷ location) status filled from under = ground arith

redirect_target-IsRedirect :
    (response : Response) (location : Text)
    → redirect_target response ≡ some location
    → IsRedirect response location
unfolding redirect_target
redirect_target-IsRedirect response location e = elim (Option-cases response.location) [
  | inl none_there ↦ absurd (none-not-some (rw (none_there, redirect_target) at e))
  | inr (found, there) ↦ elim (Bool-cases (stays found response.status)) [
    | inl idle ↦ absurd (none-not-some (rw (there, idle, redirect_target) at e))
    | inr moves ↦
        let same = some-eq (rw (there, moves, redirect_target) at e) in
        let (filled, from, under) = stays-false found response.status moves in
        record {
          there = there ∙ ap some same;
          filled = λ empty. filled (same ∙ empty);
          from_300 = from;
          under_400 = under;
        }
  ]
]

redirect_target-none :
    (response : Response) (location : Text)
    → redirect_target response ≡ none
    → ¬ IsRedirect response location
unfolding redirect_target
redirect_target-none response location e h =
    let moves = moves-stays location response.status h.filled h.from_300 h.under_400 in
    let there = h.there in
    let found : redirect_target response ≡ some location =
      rw (there, moves, redirect_target) refl in
    none-not-some (sym e ∙ found)

pub answer_for_door-Shaped :
    (asked : Asked) (response : Response) → Shaped asked response (answer_for_door asked response)
unfolding answer_for_door
answer_for_door-Shaped asked response = elim (Option-cases (redirect_target response)) [
  | inl still ↦
      rw (still, answer_for_door)
        (unmoved (λ location. redirect_target-none response location still))
  | inr (location, moves) ↦
      let redirects = redirect_target-IsRedirect response location moves in
      elim (Bool-cases (is_props asked)) [
        | inl props ↦ rw (moves, props, answer_for_door) (told_props redirects props)
        | inr other ↦ elim (Bool-cases (is_action asked)) [
          | inl acts ↦ rw (moves, other, acts, answer_for_door) (told_action redirects other acts)
          | inr neither ↦ rw (moves, other, neither, answer_for_door) (unread other neither)
        ]
      ]
]
