-- ===== src/Examples/Serving.antt =====
-- The request handler, at concrete inputs.
use Prim.Native.Nat.{ℕ}
use borgo.Common.{◌≡◌, refl, ◌⊎◌, true, false, [], ◌∷◌, none, some, ◌<◌, arith, All}
use borgo.Text.{has_prefix, codes, ◌===◌, split, decode_uri_component}
use borgo.Result.{value}
use borgo.Params.{Params, put}
use borgo.Canonical.{canonical_path}
use borgo.Router.{
  safe_decode, match_pattern, match_parts, bind_part, match_route, first_match, bare_path,
}
use borgo.Guard.{segments_of, match_entry, match_segments, parts_of, bind_segment, decode_segment}
use borgo.Guard.Boot.{PageGuard, first_cover, compiled_covers, covers}
use borgo.Guard.Decide.{Answer, next, threw, decide_answer, decide_page}
use borgo.Guard.Decide.Doors.{
  Asked, Response, is_props, is_action, redirect_target, answer_for_door, Sent, Shaped,
}
use borgo.Keys.{utf8_bytes, buffer_from, keys_equal}
use borgo.PublicPath.{hidden_between, in_hidden_directory, has_dots, has_extension}
use borgo.Server.{
  Page, Request, Site, Reply, page, file, error_page, from_middleware, is_get, may_be_file,
  probe_file, probe_asset, decide, run_action, no_page, render_target, get_page, post_action,
  open_door, after_decision, after_probe, handle, failure, or_failure, internal_key_rejects,
  dev_channel, dispatch, fetch,
}
use borgo.Server.Admitted.{RunsPage, fetch-RunsPage}
use borgo.Server.Doors.{route}
use borgo.Server.Files.{Served}
use borgo.Server.Public.{ReadsFile, fetch-ReadsFile}
use borgo.Server.Answered.{handle-respond}

serving : Unit {0}
unfolding ◌===◌ split decode_uri_component put safe_decode match_pattern match_parts bind_part
    match_route first_match bare_path segments_of match_entry match_segments parts_of bind_segment
    decode_segment first_cover compiled_covers covers decide_answer decide_page is_props is_action
    redirect_target answer_for_door utf8_bytes buffer_from keys_equal canonical_path hidden_between
    in_hidden_directory has_dots has_prefix has_extension is_get may_be_file probe_file probe_asset
    decide run_action no_page render_target get_page post_action open_door after_decision
    after_probe failure or_failure internal_key_rejects dev_channel dispatch fetch
serving = tt

keys_tests :
    (keys_equal (codes "key") (codes "key") ≡ true)
    × (keys_equal (codes "key") (codes "kex") ≡ false)
    × (keys_equal (0xD83D ∷ 0xDE00 ∷ []) (0xD83D ∷ 0xDE01 ∷ []) ≡ false)
    × (buffer_from (0xD83D ∷ 0xDE00 ∷ []) ≡ 240 ∷ 159 ∷ 152 ∷ 128 ∷ [])
    × (keys_equal (0xD800 ∷ []) (0xDFFF ∷ []) ≡ true)
unfolding serving
keys_tests = (refl, refl, refl, refl, refl)

ascii : All (λ c. c < 128) (codes "key")
ascii = (ground arith, (ground arith, (ground arith, tt)))

abbrev a_get : Asked
a_get = record { wants = none; method = codes "GET"; action = none }

abbrev news_page : Page
news_page = record { pattern = codes "/news/:id"; has_action = false }

abbrev news_request : Request ℕ
news_request = record {
  asked = a_get;
  pathname = codes "/news/7";
  search = [];
  internal_key = some (codes "key");
  shared = none;
  aborted = false;
  facts = 0;
}

-- an app that adds a header to each page under /news
abbrev adds_header : Request ℕ → Params → ℕ → Answer Response
adds_header req params facts = next ((codes "X-Seen", codes "1") ∷ [])

abbrev refuses : Request ℕ → Params → ℕ → Answer Response
refuses req params facts = Answer.respond (record { status = 401; location = none })

abbrev guard_with :
    (Request ℕ → Params → ℕ → Answer Response)
    → PageGuard (Request ℕ → Params → ℕ → Answer Response)
guard_with run = record { run = run; compiled = some (codes "/news/:path*" ∷ []) }

abbrev render_site : (Request ℕ → Params → ℕ → Answer Response) → Site ℕ
render_site run = record {
  render = true;
  dev = false;
  windows = false;
  key = codes "key";
  routes = news_page ∷ [];
  not_found_page = false;
  server_error_page = false;
  css_compiles = true;
  guard = some (guard_with run);
  indexed = λ path. false;
  exists = λ path. false;
}

abbrev front_site : Site ℕ
front_site = record {
  render = false;
  dev = false;
  windows = true;
  key = [];
  routes = news_page ∷ [];
  not_found_page = false;
  server_error_page = false;
  css_compiles = true;
  guard = none;
  indexed = λ path. false;
  exists = λ path. path === codes "/a b";
}

abbrev file_request : Request ℕ
file_request = record {
  asked = a_get;
  pathname = codes "/a%20b";
  search = [];
  internal_key = none;
  shared = none;
  aborted = false;
  facts = 0;
}

abbrev seven : Params
seven = (codes "id", codes "7") ∷ []

fetched_page :
    fetch (render_site adds_header) news_request
    ≡ (page (record { route = news_page; params = seven }), (codes "X-Seen", codes "1") ∷ [])
unfolding serving
fetched_page = refl

fetched_file : fetch front_site file_request ≡ (file (codes "/a b"), [])
unfolding serving
fetched_file = refl

fetch-RunsPage_example :
    RunsPage
      (render_site adds_header)
      news_request
      (route (record { route = news_page; params = seven }))
      ((codes "X-Seen", codes "1") ∷ [])
unfolding serving
fetch-RunsPage_example = fetch-RunsPage (render_site adds_header) news_request refl

fetch-ReadsFile_example : ReadsFile front_site file_request (codes "/a b")
unfolding serving
fetch-ReadsFile_example = fetch-ReadsFile front_site file_request refl

-- a middleware that throws, at a site with a _500 page
abbrev breaks : Request ℕ → Params → ℕ → Answer Response
breaks req params facts = threw

fetched_error :
    fetch (record (render_site breaks) { server_error_page = true }) news_request ≡ (error_page, [])
unfolding serving
fetched_error = refl

-- a client navigation that the middleware sends to another page
abbrev to_login : Response
to_login = record { status = 303; location = some (codes "/login") }

abbrev sends_away : Request ℕ → Params → ℕ → Answer Response
sends_away req params facts = Answer.respond to_login

abbrev props_asked : Asked
props_asked = record { wants = some (codes "props"); method = codes "GET"; action = none }

abbrev props_request : Request ℕ
props_request = record news_request { asked = props_asked }

handle-respond_example :
    ((sent : Sent) × Shaped props_asked to_login sent
      × (handle (render_site sends_away) props_request ≡ value (from_middleware sent, [])))
    ⊎ ((reply : Reply) × Served (render_site sends_away) props_request reply
        × (handle (render_site sends_away) props_request ≡ value (reply, [])))
unfolding serving
handle-respond_example = handle-respond (render_site sends_away) props_request refl refl refl
