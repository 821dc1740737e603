-- ===== src/ApiClient/Form.antt =====
-- `multipartBody`: the form that a body is sent as, if it is one.
use borgo.Common.{ℕ, Bool, true, false, List, [], ◌∷◌, ◌++◌, any, Option, none, some, if◌then◌else◌}
use borgo.Text.{Text, codes}
use borgo.Result.{Result, thrown, value, ◌>>=◌}
use borgo.ApiClient.{Fault, no_form_part}

-- a `Blob`, or the `File` that has a name
pub record Blob : Type 0 where
  pub name : Option Text
  pub bytes : List ℕ

-- what a field of an object holds: undefined or null, a blob, a string, number or boolean as text, or
-- something else
pub data Field : Type 0 where
  missing : Field
  blob : Blob → Field
  scalar : Text → Field
  other : Field

pub data FieldValue : Type 0 where
  single : Field → FieldValue
  many : List Field → FieldValue

pub data Part : Type 0 where
  text_part : (key text : Text) → Part
  file_part : (key : Text) (content : Blob) (file_name : Text) → Part

-- the body of a call: undefined, a FormData, an object with its fields, or anything else; with what
-- `JSON.stringify` makes of the last two
pub data Payload : Type 0 where
  nothing : Payload
  form_data : List Part → Payload
  object : (fields : List (Text × FieldValue)) (json : Text) → Payload
  plain : (json : Text) → Payload

abbrev is_blob : Field → Bool
is_blob (blob b) = true
is_blob _ = false

abbrev pub has_blob : FieldValue → Bool
has_blob (single f) = is_blob f
has_blob (many fs) = any is_blob fs

abbrev file_name_of : Option Text → Text
file_name_of none = codes "blob"
file_name_of (some name) = name

-- what a field adds to the form
unfoldable pub field_parts : Text → Field → Result Fault (List Part)
field_parts key missing = value []
field_parts key (blob b) = value (file_part key b (file_name_of b.name) ∷ [])
field_parts key (scalar t) = value (text_part key t ∷ [])
field_parts key other = thrown (no_form_part key)

unfoldable pub list_parts : Text → List Field → Result Fault (List Part)
unfolding field_parts
list_parts key [] = value []
list_parts key (f ∷ fs) = do
  part ← field_parts key f
  more ← list_parts key fs
  value (part ++ more)

abbrev fields_of : FieldValue → List Field
fields_of (single f) = f ∷ []
fields_of (many fs) = fs

unfoldable pub form_parts : List (Text × FieldValue) → Result Fault (List Part)
unfolding list_parts
form_parts [] = value []
form_parts ((key, v) ∷ entries) = do
  parts ← list_parts key (fields_of v)
  more ← form_parts entries
  value (parts ++ more)

abbrev as_form : Result Fault (List Part) → Result Fault (Option (List Part))
as_form (thrown why) = thrown why
as_form (value parts) = value (some parts)

unfoldable pub multipart_body : Payload → Result Fault (Option (List Part))
unfolding form_parts
multipart_body (form_data parts) = value (some parts)
multipart_body (object entries json) =
    if any (λ (e : Text × FieldValue). has_blob e.1) entries
    then as_form (form_parts entries)
    else value none
multipart_body _ = value none
