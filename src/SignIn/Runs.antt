-- ===== src/SignIn/Runs.antt =====
-- The runs of the sign-in: any order of calls and of answers to the requests that are under way.
use memo_repo.Prelude.{ℕ, String, Bool, Option, none, some, List, [], ◌∷◌, ◌++◌, ◌≡◌, ◌⊎◌}
use memo_repo.Coverage.Paths.{Locale}
use memo_repo.SignIn.Answers.{Answer, RequestError, TokenResponse}
use memo_repo.SignIn.Flow.{
  Attempt, SignIn, Credential, failed, code_asked, Started, start_refused, start_shown, Polled,
  poll_refused, poll_shown, token_asked, start_device_authorization, device_code_answers,
  get_device_authorization_status,
}
use memo_repo.SignIn.Poll.{
  Token, token_throws, token_shown, viewer_asked, token_answers, viewer_answers,
  cancel_device_authorization, disconnect,
}

-- A call that waits for GitHub, with what it keeps for the rest of its work.
pub data Waiting : Type 0 where
  for_code : (now : ℕ) → Waiting
  for_token : (r now : ℕ) → Waiting
  for_viewer : (r now : ℕ) → TokenResponse → List String → Waiting

pub record World : Type 0 where
  pub service : SignIn
  pub waiting : List Waiting

-- No attempt: the store holds it where none was made.
abbrev no_attempt : Attempt
no_attempt = record {
  id = "";
  device_code = none;
  user_code = "";
  expires_at = 0;
  interval_ms = 0;
  next_poll_at = 0;
  status = failed;
  error = some "";
  viewer = none;
  scopes = none;
}

abbrev pub new_service : Bool → Option Credential → SignIn
new_service configured credential = record {
  attempts = λ r. no_attempt;
  made = 0;
  active_attempt = none;
  credential = credential;
  environment_token_configured = configured;
}

abbrev pub start_waits : ℕ → Started → List Waiting → List Waiting
start_waits now code_asked ps = for_code now ∷ ps
start_waits now (start_refused e) ps = ps
start_waits now (start_shown p) ps = ps

abbrev pub poll_waits : ℕ → Polled → List Waiting → List Waiting
poll_waits now (token_asked r) ps = for_token r now ∷ ps
poll_waits now (poll_refused e) ps = ps
poll_waits now (poll_shown p) ps = ps

abbrev pub token_waits : ℕ → Token → List Waiting → List Waiting
token_waits now (viewer_asked r token scopes) ps = for_viewer r now token scopes ∷ ps
token_waits now (token_throws e) ps = ps
token_waits now (token_shown p) ps = ps

pub data Step (w : Locale) (u : World) : World → Type 0 where
  starts :
      (now : ℕ)
      → Step w u (record u {
        waiting = start_waits now (start_device_authorization now u.service) u.waiting;
      })
  polls :
      (attempt_id : String) (now : ℕ)
      → Step w u (record {
        service = (get_device_authorization_status attempt_id now u.service).1;
        waiting =
            poll_waits now (get_device_authorization_status attempt_id now u.service).0 u.waiting;
      })
  cancels :
      (attempt_id : String)
      → Step w u (record u { service = (cancel_device_authorization attempt_id u.service).1 })
  disconnects : Step w u (record u { service = (disconnect u.service).1 })
  code_arrives :
      (now : ℕ) (before after : List Waiting) (id : String) (answer : Answer)
      → u.waiting ≡ before ++ for_code now ∷ after
      → Step w u (record {
        service = (device_code_answers now id answer u.service).1;
        waiting = before ++ after;
      })
  token_arrives :
      (r now : ℕ) (before after : List Waiting) (answer : RequestError ⊎ TokenResponse)
      → u.waiting ≡ before ++ for_token r now ∷ after
      → Step w u (record {
        service = (token_answers w r now answer u.service).1;
        waiting = token_waits now (token_answers w r now answer u.service).0 (before ++ after);
      })
  viewer_arrives :
      (r now : ℕ) (token : TokenResponse) (scopes : List String) (before after : List Waiting)
      (answer : Answer) (stored : Bool)
      → u.waiting ≡ before ++ for_viewer r now token scopes ∷ after
      → Step w u (record {
        service = (viewer_answers w r now token scopes answer stored u.service).1;
        waiting = before ++ after;
      })

pub data Run (w : Locale) (u : World) : World → Type 0 where
  here : Run w u u
  followed : {v x : World} → Run w u v → Step w v x → Run w u x

abbrev pub new_world : Bool → Option Credential → World
new_world configured credential = record {
  service = new_service configured credential;
  waiting = [];
}

-- An invariant that every step keeps holds behind every run.
pub Run-keeps :
    (w : Locale) (P : World → Type 0)
    → ((u v : World) → P u → Step w u v → P v)
    → (u v : World) → P u
    → Run w u v
    → P v
Run-keeps w P keep u v h here = h
Run-keeps w P keep u v h (followed {v = x} run step) = keep x v (Run-keeps w P keep u x h run) step
