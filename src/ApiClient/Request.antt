-- ===== src/ApiClient/Request.antt =====
-- What a call gives to `fetch`.
use borgo.Common.{ℕ, Bool, List, [], ◌∷◌, ◌++◌, map, Option, none, some, if◌then◌else◌, ◌==◌}
use borgo.Text.{Text, codes, ◌===◌, to_lower}
use borgo.Result.{Result, thrown, value, ◌>>=◌}
use borgo.Maps.{Map, set}
use borgo.ApiClient.{Fault, no_method, bad_url}
use borgo.ApiClient.Path.{fill_route}
use borgo.ApiClient.Form.{Part, Payload, nothing, object, plain, multipart_body}

-- the options of a call; a param or a query value that is undefined or null is `none`
pub record Options : Type 0 where
  pub params : Map (Option Text)
  pub query : Map (Option Text)
  pub headers : Map Text
  pub body : Payload

pub data Wire : Type 0 where
  no_body : Wire
  form_body : List Part → Wire
  json_body : Text → Wire

-- The url, the query set on it and the options that `fetch` gets; its redirects are not followed.
pub record Init : Type 0 where
  pub method : Text
  pub url : Text
  pub query : Map Text
  pub headers : Map Text
  pub body : Wire

abbrev longer_method : ℕ → Option (Text × Text) → Option (Text × Text)
longer_method c none = none
longer_method c (some (method, path)) = some (c ∷ method, path)

-- `METHOD /path` at its first space
unfoldable pub split_route : Text → Option (Text × Text)
split_route [] = none
split_route (c ∷ s) =
    let rest = split_route s in if c == b' ' then some ([], s) else longer_method c rest

-- the loop over the query
unfoldable pub set_query : Map (Option Text) → Map Text → Map Text
unfolding set
set_query [] query = query
set_query ((key, none) ∷ rest) query = set_query rest query
set_query ((key, some v) ∷ rest) query = set_query rest (set key v query)

-- `{ ...headers, ...more }`
unfoldable pub spread : Map Text → Map Text → Map Text
unfolding set
spread headers [] = headers
spread headers ((name, v) ∷ more) = spread (set name v headers) more

unfoldable pub without_content_type : Map Text → Map Text
without_content_type [] = []
without_content_type ((name, v) ∷ rest) =
    let kept = without_content_type rest in
    if map to_lower name === codes "content-type" then kept else (name, v) ∷ kept

abbrev json_type : Map Text
json_type = (codes "Content-Type", codes "application/json") ∷ []

-- the headers of a call, by its body and its form
unfoldable pub init_headers : Map Text → Map Text → Payload → Option (List Part) → Map Text
unfolding spread without_content_type
init_headers defaults given body (some form) = spread defaults (without_content_type given)
init_headers defaults given nothing none = spread defaults given
init_headers defaults given body none = spread (spread defaults json_type) given

abbrev pub wire_of : Payload → Option (List Part) → Wire
wire_of body (some form) = form_body form
wire_of (object entries json) none = json_body json
wire_of (plain json) none = json_body json
wire_of _ none = no_body

-- `new URL(url)`, for the urls that `is_url` takes
abbrev parse_url : (Text → Bool) → Text → Result Fault Text
parse_url is_url url = if is_url url then value url else thrown (bad_url url)

abbrev checked_route : Option (Text × Text) → Result Fault (Text × Text)
checked_route none = thrown no_method
checked_route (some r) = value r

unfoldable pub init_of :
    (Text → Bool)
    → (base : Text) → (defaults : Map Text) → (route : Text) → Options
    → Result Fault Init
unfolding split_route fill_route set_query init_headers multipart_body
init_of is_url base defaults route opts = do
  r ← checked_route (split_route route)
  path ← fill_route opts.params r.1
  url ← parse_url is_url (base ++ path)
  form ← multipart_body opts.body
  value (record {
    method = r.0;
    url = url;
    query = set_query opts.query [];
    headers = init_headers defaults opts.headers opts.body form;
    body = wire_of opts.body form;
  })
