-- ===== src/Examples/Pages.antt =====
-- Pages and posts to them, at concrete inputs.
use Prim.Native.Nat.{ℕ}
use borgo.Common.{◌≡◌, refl, Bool, true, false, List, [], ◌∷◌, none, some}
use borgo.Text.{
  Text, codes, ◌===◌, split, trim, has_prefix, replace_all, contains, utf16, join, trim_start,
  trim_end, is_space,
}
use borgo.Params.{put, get}
use borgo.Result.{thrown, value}
use borgo.Responses.{Response, with_cookies, location_of}
use borgo.Body.{
  Limited, limit_request_body, limit_body, read_body_within, read_chunks, framed_length,
  content_length, parse_content_length, decimal, assemble, replicate, set_at, fill,
}
use borgo.Jar.{
  name_of, kept_parts, parts_of, behind_attribute, starts_with_number, only_zeros, is_at_most_zero,
  starts_attribute, expired_at, cookie_expired, fresh_part, index_of, without, place_at,
  take_cookie, take_cookies, fresh_cookie_header, remove, put_cookie, fresh_cookie_request,
}
use borgo.Csrf.{
  onto_first, cut, agreed_value, named_value, csrf_cookie_value, has_value, has_cookie,
  csrf_rejects,
}
use borgo.Assets.Encoding.{nan, pick_encoding}
use borgo.Action.{
  Content, document, Outcome, returned, Post, ActionOptions, run_action, run_limited, recover,
  attempt, after_action, or_app,
}
use borgo.Html.{
  escape_html, script_json, head_html, metas_html, attrs_html, safe_head_attrs, safe_attr_name,
  resolve_head, fixed,
}
use borgo.Html.Decode.{
  take_while, digits_value, ended, number_reference, reference, named_ref, reference_text,
  decode_from, decode_html_text,
}
use borgo.Html.Escape.{IsInert, decode_html_text-escape_html}
use borgo.Maps.{lookup}
use borgo.RenderPage.{
  Document, PageModule, RenderOptions, Visit, csrf_token, minted, nonce, props_json, start_of,
  end_of, page_csp, gzips, page_headers, render_props, after_load, render_page,
}
use borgo.RenderPage.Rendered.{IsRendered, render_page-IsRendered}
use borgo.RenderPage.Posted.{fresh_visit, rendering, Posted}

pages : Unit {0}
unfolding lookup utf16 take_while digits_value ended number_reference reference named_ref
    reference_text decode_from decode_html_text ◌===◌ split trim has_prefix replace_all contains put
    get with_cookies location_of limit_request_body limit_body read_body_within read_chunks
    framed_length content_length parse_content_length decimal assemble replicate set_at fill cut
    agreed_value named_value csrf_cookie_value has_value has_cookie csrf_rejects run_action
    run_limited recover attempt after_action or_app escape_html script_json head_html metas_html
    attrs_html safe_head_attrs safe_attr_name resolve_head csrf_token pick_encoding minted nonce
    props_json start_of end_of page_csp gzips page_headers render_props after_load render_page
    fresh_visit rendering join trim_start trim_end is_space onto_first name_of kept_parts parts_of
    behind_attribute starts_with_number only_zeros is_at_most_zero starts_attribute expired_at
    cookie_expired fresh_part index_of without place_at take_cookie take_cookies fresh_cookie_header
    remove put_cookie fresh_cookie_request
pages = tt

html_tests :
    (escape_html (codes "<a href=\"x\">&") ≡ codes "&lt;a href=&quot;x&quot;&gt;&amp;")
    × (script_json (codes "\"</script>\"") ≡ codes "\"\\u003c/script>\"")
    × (safe_attr_name (codes "http-equiv") ≡ true)
    × (safe_attr_name (codes "onClick") ≡ false)
    × (safe_attr_name (codes "a b") ≡ false)
unfolding pages
html_tests = (refl, refl, refl, refl, refl)

abbrev object_text : Text
object_text = codes "function Object() { [native code] }"

decode_tests :
    (decode_html_text object_text (codes "Tom &amp; &#74;&#x65;rry &nope; &#0;")
      ≡ codes "Tom & Jerry &nope; &#0;")
    × (decode_html_text object_text (codes "&constructor;") ≡ object_text)
unfolding pages
decode_tests = (refl, refl)

decode_html_text-escape_html_example :
    IsInert (escape_html (codes "<\"&amp;"))
    × (decode_html_text object_text (escape_html (codes "<\"&amp;")) ≡ codes "<\"&amp;")
decode_html_text-escape_html_example = decode_html_text-escape_html object_text (codes "<\"&amp;")

-- a loader that logs the visitor in, and a page that shows its token
abbrev page : PageModule Text ℕ
page = record {
  hydrates = true;
  islands = false;
  head = fixed (record { title = codes "T"; metas = ((codes "name", codes "a\"b") ∷ []) ∷ [] });
  render = λ props token given. value (token ∷ [], false);
}

abbrev options : RenderOptions Text ℕ
options = record {
  dev = false;
  shell = record {
    start = codes "<head></head>";
    head = (codes "<head>", codes "</head>");
    head_no_title = (codes "<head>", codes "</head>");
    end_props = (codes "<p>", codes "</p>");
    zero_js_plain = [];
    zero_js_islands = [];
    state_tail = codes "</script>";
  };
  security = none;
  csrf_cookie_attrs = codes "Path=/";
  shared_render = false;
  redact_text = λ text. text;
  random = λ n. codes "r";
  json_of = λ n. value (codes "{}");
  merge = λ loaded extra. extra;
  number = λ t. nan;
  run_loader = λ fresh target. (codes "sid=1" ∷ [], returned 3);
}

abbrev visit : Visit
visit = record { cookie_header = none; accept_encoding = none }

abbrev shown_page : Response (Content Text Document)
shown_page = record {
  status = 200;
  headers = page_headers options visit;
  set_cookies = codes "a=1" ∷ (codes "sid=1" ∷ (codes "borgo_csrf=r; Path=/" ∷ []));
  content = document (record {
    start = codes "<head><title>T</title><meta name=\"a&quot;b\" data-borgo-head></head>";
    chunks = codes "r" ∷ [];
    fails = false;
    end = codes "<p><script>window.__PROPS__={}</script></p>";
    is_gzipped = false;
  });
}

shown_test : render_page options visit [] page 200 none (codes "a=1" ∷ []) ≡ value shown_page
unfolding pages
shown_test = refl

render_page-IsRendered_example :
    IsRendered options visit page none (codes "a=1" ∷ (codes "sid=1" ∷ [])) (returned 3) shown_page
render_page-IsRendered_example =
    render_page-IsRendered options visit [] page 200 none (codes "a=1" ∷ []) shown_test

abbrev action_options : ActionOptions Text ℕ Document (PageModule Text ℕ)
action_options = record {
  dev = false;
  round = λ n. n;
  max_body = 4;
  csrf_enforced = false;
  server_error = none;
  send_json = λ json status headers. thrown [];
  run_loader = λ fresh target. ([], returned 0);
  render_page = λ fresh target status extra cookies. thrown [];
}

abbrev post : Post
post = record {
  wants_json = false;
  aborted = false;
  cookie_header = none;
  token = [];
  framing = record { transfer_encoding = none; declared = none };
  body = some ((1 ∷ []) ∷ []);
}

abbrev saves : Limited → List Text × Outcome Text ℕ Document
saves limited = (codes "a=1" ∷ [], returned 1)

abbrev never_past : Text → Bool
never_past date = false
