-- ===== src/Examples/Guarding.antt =====
-- The page guard and the page policies, at concrete inputs.
use Prim.Native.Nat.{ℕ}
use mathlib.Core.List.{Memᴰ}
use borgo.Common.{
  ◌≡◌, refl, ◌↔◌, ◌⊎◌, true, false, List, [], ◌∷◌, map, Option, none, some, All, ltb,
}
use borgo.Text.{Text, codes, ◌===◌, split, join, trim, decode_uri_component}
use borgo.Result.{value, thrown}
use borgo.Params.{Params, put}
use borgo.Router.{safe_decode, match_pattern, match_parts, bind_part}
use borgo.Guard.{
  text, not_text, not_a_path, encoded, wildcard_inside, stray_mark, trailing_slash, reserved,
  matcher_refusal, has_escape, is_param_name, segments_of, segment_refusal, segments_refusal,
  reserved_refusal, match_entry, match_segments, parts_of, bind_segment, decode_segment,
  patterns_overlap,
}
use borgo.Guard.Cover.{Covers, match_entry_iff}
use borgo.Guard.Boot.{
  absent, entries, Exports, PageGuard, IsCompiled, no_function, bad_entry, compile_entry,
  compile_entries, compile_matcher, first_cover, compiled_covers, compiled_route, compiled_unknown,
  covers, guards_route, guards_unknown, resolve, resolve-IsCompiled,
}
use borgo.Guard.Boot.Routes.{covers-guards_route}
use borgo.Guard.Boot.Unknown.{covers-guards_unknown}
use borgo.Guard.Decide.{
  Headers, Answer, rewrite, continue, Allows, decide_answer, decide_page, rewrite_refusal,
  reserved_rewrite, decide_page-continue,
}
use borgo.Guard.Decide.Doors.{
  Asked, Response, redirect_target, is_props, is_action, answer_for_door,
}
use borgo.Isr.{
  Platform, Tags, RouteLike, manual, by_hand, IsrPolicyEntry, Warning, policy_entry,
  isr_policy_table, read_isr_policy, read_freshness, read_tags, with_tags, is_bad_tag,
  normalize_tag,
}
use borgo.Isr.Guarded.{isr_policy_table-covers}

guarding : Unit {0}
unfolding ◌===◌ split decode_uri_component put safe_decode match_pattern match_parts bind_part
    matcher_refusal has_escape is_param_name segments_of segment_refusal segments_refusal
    reserved_refusal match_entry match_segments parts_of bind_segment decode_segment
    patterns_overlap compile_entry compile_entries compile_matcher first_cover compiled_covers
    compiled_route compiled_unknown covers guards_route guards_unknown resolve decide_answer
    decide_page rewrite_refusal reserved_rewrite redirect_target is_props is_action answer_for_door
    policy_entry isr_policy_table read_isr_policy read_freshness read_tags with_tags is_bad_tag
    normalize_tag trim join
guarding = tt

refusal_tests :
    (matcher_refusal (text (codes "/w/:slug/:path*")) ≡ none)
    × (matcher_refusal not_text ≡ some not_a_path)
    × (matcher_refusal (text (codes "/citt%C3%A0")) ≡ some encoded)
    × (matcher_refusal (text (codes "/:a*/b")) ≡ some wildcard_inside)
    × (matcher_refusal (text (codes "/a*")) ≡ some stray_mark)
    × (matcher_refusal (text (codes "/a/")) ≡ some trailing_slash)
    × (matcher_refusal (text (codes "/api/x")) ≡ some (reserved (codes "api")))
unfolding guarding
refusal_tests = (refl, refl, refl, refl, refl, refl, refl)

abbrev wild : Text
wild = codes "/w/:slug/:path*"

match_entry_tests :
    (match_entry wild (codes "/w/x/a/b%20c")
      ≡ some ((codes "slug", codes "x") ∷ (codes "path", codes "a/b c") ∷ []))
    × (match_entry wild (codes "/w//a") ≡ none)
unfolding guarding
match_entry_tests = (refl, refl)

match_entry_iff_example :
    ((params : Params) × (match_entry wild (codes "/w/x") ≡ some params))
    ↔ Covers (segments_of wild) (parts_of (codes "/w/x"))
match_entry_iff_example = match_entry_iff wild (codes "/w/x")

abbrev Run : Type 0
Run = Text → Params → ℕ → Answer ℕ

-- an app whose middleware rewrites its guarded page to the login page
abbrev login_first : Run
login_first request params facts = rewrite (some (codes "/login")) []

abbrev exported : Exports Run
exported = record {
  middleware = some login_first;
  matcher = entries (text (codes "/app/:id") ∷ text (codes "/old") ∷ []);
}

abbrev booted : PageGuard Run
booted = record { run = login_first; compiled = some (codes "/app/:id" ∷ codes "/old" ∷ []) }

boots : resolve (some exported) ≡ value (some booted)
unfolding guarding
boots = refl

boot_tests :
    (resolve {F = Run} none ≡ value none)
    × (resolve {F = Run} (some (record { middleware = none; matcher = absent }))
        ≡ thrown no_function)
    × (resolve (some (record { middleware = some login_first; matcher = entries (not_text ∷ []) }))
        ≡ thrown (bad_entry not_text not_a_path))
unfolding guarding
boot_tests = (refl, refl, refl)

resolve-IsCompiled_example :
    (exported.middleware ≡ some booted.run) × IsCompiled exported.matcher booted.compiled
resolve-IsCompiled_example = resolve-IsCompiled exported boots

abbrev app_params : Params
app_params = (codes "id", codes "7") ∷ []

app_match : match_pattern (codes "/app/:id") (codes "/app/7") ≡ some app_params
unfolding guarding
app_match = refl

app_covered : covers booted (codes "/app/7") ≡ some app_params
unfolding guarding
app_covered = refl

covers-guards_route_example : guards_route booted (codes "/app/:id") ≡ true
unfolding guarding
covers-guards_route_example =
    covers-guards_route exported (codes "app/:id") (codes "app/7") boots
      (λ _. refl, (λ _. refl, tt)) app_match app_covered

-- A route file whose name holds an escape is matched by the path and covered by the entry that
-- spells the character, and the two do not overlap.
overlap_needs_decoded :
    (match_pattern (codes "/a%20b") (codes "/a%20b") ≡ some [])
    × (match_entry (codes "/a b") (codes "/a%20b") ≡ some [])
    × (patterns_overlap (codes "/a%20b") (codes "/a b") ≡ false)
unfolding guarding
overlap_needs_decoded = (refl, refl, refl)

abbrev other_routes : List Text
other_routes = codes "" ∷ codes "app" ∷ []

old_covered : covers booted (codes "/old") ≡ some []
unfolding guarding
old_covered = refl

old_missed : All (λ p. match_pattern (b'/' ∷ p) (codes "/old") ≡ none) other_routes
unfolding guarding
old_missed = (refl, (refl, tt))

covers-guards_unknown_example : guards_unknown booted (map (◌∷◌ b'/') other_routes) ≡ true
covers-guards_unknown_example =
    covers-guards_unknown exported (codes "old") other_routes boots old_missed old_covered

decided : decide_page booted (codes "") (codes "/app/7") 0 ≡ value (continue (codes "/login") [])
unfolding guarding
decided = refl

decide_page-continue_example :
    ((covers booted (codes "/app/7") ≡ none)
      × (codes "/login" ≡ codes "/app/7")
      × (◌≡◌ {A = Headers} [] []))
    ⊎ ((params : Params) × (covers booted (codes "/app/7") ≡ some params)
        × Allows (codes "/app/7") (login_first (codes "") params 0) (codes "/login") [])
decide_page-continue_example = decide_page-continue booted (codes "") (codes "/app/7") 0 decided

abbrev asked_props : Asked
asked_props = record { wants = some (codes "props"); method = codes "GET"; action = none }

abbrev to_login : Response
to_login = record { status = 303; location = some (codes "/login") }

-- numbers that are never negative or infinite, and texts that are all in normal form
abbrev platform : Platform
platform = record { Number = ℕ; is_finite = λ n. true; is_positive = λ n. ltb 0 n; nfc = λ t. t }

abbrev news : RouteLike platform
news = record { pattern = codes "/news"; revalidate = manual; exported_tags = Tags.absent }

abbrev app_page : RouteLike platform
app_page = record { pattern = codes "/app/:id"; revalidate = manual; exported_tags = Tags.absent }

abbrev news_entry : IsrPolicyEntry platform × Option (Warning platform)
news_entry = (record { pattern = codes "/news"; freshness = some by_hand; entry_tags = [] }, none)

news_listed :
    Memᴰ news_entry (isr_policy_table platform (guards_route booted) (app_page ∷ news ∷ []))
unfolding guarding
news_listed = Memᴰ.tail (Memᴰ.head refl)

news_match : match_pattern (codes "/news") (codes "/news") ≡ some []
unfolding guarding
news_match = refl

isr_policy_table-covers_example : covers booted (codes "/news") ≡ none
unfolding guarding
isr_policy_table-covers_example =
    isr_policy_table-covers platform exported booted (app_page ∷ news ∷ []) news_entry
      (codes "news") boots
      (
        (codes "app/:id", refl, (λ _. refl, (λ _. refl, tt))),
        ((codes "news", refl, (λ _. refl, tt)), tt),
      )
      news_listed refl news_match
