-- ===== src/SignIn/Answers.antt =====
-- What GitHub answers to the requests of the sign-in, and how
-- apps/api/src/services/githubOAuthService.ts reads it (`parseDeviceCodeResponse`,
-- `parseViewerResponse`, `parseScopes`, `safeOAuthError`).
use Prim.Native.Char.{Char, code}
use Prim.Native.String
use memo_repo.Prelude.{
  map_get, ℕ, String, ◌-◌, Bool, true, false, not, ◌&&◌, ◌||◌, Option, none, some, List, [], ◌∷◌,
  ◌⊎◌, leb, ltb, ◌=?◌, ◌==◌, if◌then◌else◌,
}
use memo_repo.Text.{is_white}
use memo_repo.Coverage.Paths.{Locale, unique_sorted}
use memo_repo.Domain.Slug.{trim}
use memo_repo.ToolStats.{max_safe_integer}

-- A JSON value by what the readers tell apart: a number is whole when it is a whole number that is not
-- negative.
pub data Value : Type 0 where
  null_value : Value
  text : String → Value
  whole : ℕ → Value
  other : Value

pub data Payload : Type 0 where
  not_record : Payload
  fields : List (String × Value) → Payload

-- `GitHubOAuthRequestError` by its status.
pub data RequestError : Type 0 where
  conflict : RequestError
  not_found : RequestError
  bad_gateway : RequestError

-- How a request ends: `requestJson` throws, or it gives what the body of the answer holds.
abbrev pub Answer : Type 0
Answer = RequestError ⊎ Payload

abbrev pub field : String → List (String × Value) → Value
field name values = elim (map_get name values) [ none ↦ other | some v ↦ v ]

infixl 20 ◌>>=◌
abbrev ◌>>=◌ : {A B : Type 0} → Option A → (A → Option B) → Option B
none >>= f = none
(some a) >>= f = f a

-- `stringValue`
unfoldable pub string_value : Value → Option String
string_value (text s) = if trim s == "" then none else some (trim s)
string_value null_value = none
string_value (whole n) = none
string_value other = none

-- `positiveNumber`
unfoldable pub positive_number : Value → Option ℕ
positive_number (whole n) = if ltb 0 n && leb n max_safe_integer then some n else none
positive_number (text s) = none
positive_number null_value = none
positive_number other = none

pub record DeviceCode : Type 0 where
  pub device_code : String
  pub user_code : String
  pub verification_uri : String
  pub expires_in : ℕ
  pub interval : ℕ

unfoldable pub parse_device_code_response : Payload → Option DeviceCode
parse_device_code_response not_record = none
parse_device_code_response (fields vs) = do
  device_code ← string_value (field "device_code" vs)
  user_code ← string_value (field "user_code" vs)
  verification_uri ← string_value (field "verification_uri" vs)
  expires_in ← positive_number (field "expires_in" vs)
  interval ← positive_number (field "interval" vs)
  some (record {
    device_code = device_code;
    user_code = user_code;
    verification_uri = verification_uri;
    expires_in = expires_in;
    interval = interval;
  })

pub record Viewer : Type 0 where
  pub id : ℕ
  pub login : String
  pub name : Option String
  pub avatar_url : String

-- `value.name === null ? null : stringValue(value.name)`, where `none` is undefined.
abbrev pub name_of : Value → Option (Option String)
name_of null_value = some none
name_of (text s) = elim (string_value (text s)) [ none ↦ none | some n ↦ some (some n) ]
name_of (whole n) = none
name_of other = none

-- `mapViewer(parseViewerResponse(response))`
unfoldable pub parse_viewer_response : Payload → Option Viewer
parse_viewer_response not_record = none
parse_viewer_response (fields vs) = do
  id ← positive_number (field "id" vs)
  login ← string_value (field "login" vs)
  avatar_url ← string_value (field "avatar_url" vs)
  name ← name_of (field "name" vs)
  some (record { id = id; login = login; name = name; avatar_url = avatar_url })

-- The fields of `OAuthTokenResponse`, an empty text as one that is missing, since the source only asks
-- whether they are truthy, and a missing scope is read as the empty one.
pub record TokenResponse : Type 0 where
  pub access_token : String
  pub token_type : String
  pub scope : String
  pub error : String
  pub error_description : String
  pub interval : ℕ

abbrev is_separator : Char → Bool
is_separator c = is_white c || code c =? b','

abbrev start_word : Bool → Char → List String → List String
start_word joins c [] = String.◌∷◌ c String.[] ∷ []
start_word joins c (w ∷ ws) = if joins then String.◌∷◌ c w ∷ ws else String.◌∷◌ c String.[] ∷ w ∷ ws

-- Whether a word goes on at the start of a text.
abbrev goes_on : String → Bool
goes_on String.[] = false
goes_on (String.◌∷◌ c s) = not (is_separator c)

-- The parts of `.split(/[\s,]+/)` that are not empty.
unfoldable pub words : String → List String
words String.[] = []
words (String.◌∷◌ c s) =
    let rest = words s in if is_separator c then rest else start_word (goes_on s) c rest

unfoldable pub parse_scopes : Locale → String → List String
parse_scopes w value = unique_sorted w (words value)

-- `.replace(/[\r\n\t]+/g, " ")`
unfoldable pub single_line : Bool → String → String
single_line in_run String.[] = ""
single_line in_run (String.◌∷◌ c s) =
    let kept = String.◌∷◌ c (single_line false s) in
    let rest = single_line true s in
    if code c =? 13 || code c =? 10 || code c =? 9
    then (if in_run then rest else String.◌++◌ " " rest)
    else kept

-- The UTF-16 units of a character.
abbrev units : Char → ℕ
units c = if leb 0x10000 (code c) then 2 else 1

-- `.slice(0, n)`, which counts UTF-16 units. Of a pair that it would cut, nothing stays here.
unfoldable pub take_units : ℕ → String → String
take_units n String.[] = ""
take_units n (String.◌∷◌ c s) =
    let rest = take_units (n - units c) s in if ltb n (units c) then "" else String.◌∷◌ c rest

unfoldable pub safe_oauth_error : String → Option String
safe_oauth_error value =
    let line = take_units 240 (trim (single_line false value)) in
    if line == "" then none else some line
