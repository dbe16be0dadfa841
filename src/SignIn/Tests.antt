-- ===== src/SignIn/Tests.antt =====
-- A sign-in from its start to the stored credential, and a few of the answers.
use memo_repo.Prelude.{map_get, ℕ, true, false, none, some, [], ◌∷◌, ◌≡◌, refl, inr, set_has}
use memo_repo.Text.{is_some}
use memo_repo.Coverage.Paths.{Locale, unique_sorted, sort_texts, insert_text, distinct}
use memo_repo.Domain.Slug.{trim, trim_start, trim_end}
use memo_repo.SignIn.Answers.{
  fields, text, whole, null_value, Payload, TokenResponse, Viewer, parse_viewer_response,
  parse_scopes, words, safe_oauth_error, single_line, take_units, string_value, positive_number,
  DeviceCode,
}
use memo_repo.SignIn.Flow.{
  SignIn, denied, connected, new_attempt, device_code_answers, start_device_authorization,
}
use memo_repo.SignIn.Poll.{viewer_asked, token_answers}
use memo_repo.SignIn.Runs.{
  World, Run, here, followed, starts, code_arrives, for_code, new_world, new_service,
}
use memo_repo.SignIn.Invariant.{is_well_formed}
use memo_repo.SignIn.Sound.{Run-sound, has_scope}
use memo_repo.SignIn.Configured.{
  answered-cancel, cancelled, after_cancel, answered, Run-IsQuiet, IsQuiet,
}

abbrev plain : Locale
plain = record { lower_extname = λ path. ""; goes_before = λ s t. false }

test_words : words " repo,, read:org user " ≡ "repo" ∷ "read:org" ∷ "user" ∷ []
unfolding words
test_words = refl

test_safe_oauth_error : safe_oauth_error " one\r\ntwo " ≡ some "one two"
unfolding safe_oauth_error single_line take_units trim trim_start trim_end
test_safe_oauth_error = refl

abbrev code_payload : Payload
code_payload = fields (
    ("device_code", text "dev")
    ∷ ("user_code", text "AB-CD")
    ∷ ("verification_uri", text "https://github.com/login/device")
    ∷ ("expires_in", whole 900)
    ∷ ("interval", whole 5)
    ∷ [])

abbrev account : Payload
account = fields (
    ("id", whole 7)
    ∷ ("login", text "octo")
    ∷ ("avatar_url", text "https://a")
    ∷ ("name", null_value)
    ∷ [])

abbrev octo : Viewer
octo = record { id = 7; login = "octo"; name = none; avatar_url = "https://a" }

abbrev granted : TokenResponse
granted = record {
  access_token = "gho_1";
  token_type = "bearer";
  scope = "repo,user";
  error = "";
  error_description = "";
  interval = 0;
}

abbrev asked : World
asked = record { service = new_service false none; waiting = for_code 1000 ∷ [] }

abbrev started : World
started = record {
  service = (device_code_answers 1000 "gha_1" (inr code_payload) asked.service).1;
  waiting = [];
}

abbrev run_to_started : Run plain (new_world false none) started
unfolding start_device_authorization
run_to_started =
    followed (followed here (starts 1000)) (code_arrives 1000 [] [] "gha_1" (inr code_payload) refl)

Run-sound_example :
    ((r : ℕ) → is_well_formed (started.service.attempts r) ≡ true)
    × (has_scope started.service.credential ≡ true)
Run-sound_example = Run-sound plain false none refl started run_to_started

abbrev refused : World
refused = record { service = new_service true none; waiting = [] }

abbrev run_to_refused : Run plain (new_world true none) refused
unfolding start_device_authorization
run_to_refused = followed here (starts 1000)

Run-IsQuiet_example : IsQuiet none refused
Run-IsQuiet_example = Run-IsQuiet plain none refused run_to_refused

abbrev code : DeviceCode
code = record {
  device_code = "dev";
  user_code = "AB-CD";
  verification_uri = "https://github.com/login/device";
  expires_in = 900;
  interval = 5;
}

-- One attempt that waits.
abbrev waits : SignIn
waits = record {
  attempts = λ r. new_attempt 1000 "gha_1" code;
  made = 1;
  active_attempt = some 0;
  credential = none;
  environment_token_configured = false;
}

answered-cancel_example :
    (cancelled 0 waits ≡ some true)
    × ((token_answers plain 0 6000 (inr granted) (after_cancel 0 waits)).0
        ≡ viewer_asked 0 granted (parse_scopes plain "repo,user"))
    × (((after_cancel 0 waits).attempts 0).status ≡ denied)
    × (((answered plain 0 6000 granted account (after_cancel 0 waits)).attempts 0).status
        ≡ connected)
    × (is_some (answered plain 0 6000 granted account (after_cancel 0 waits)).credential ≡ true)
unfolding new_attempt parse_scopes words unique_sorted set_has parse_viewer_response string_value
    positive_number trim trim_start trim_end sort_texts insert_text distinct map_get
answered-cancel_example =
    answered-cancel plain 0 6000 granted account octo waits refl refl refl refl
