-- ===== src/SignIn/Flow.antt =====
-- The state of `GitHubOAuthService` and its methods (apps/api/src/services/githubOAuthService.ts).
--
-- `activeAttempt` is a reference into a store of attempts, since a method that awaits an answer of
-- GitHub keeps the attempt that it started with, whatever becomes of `activeAttempt` meanwhile. A
-- method that awaits gives what it asked for, and its rest is a function of the answer.
-- SignIn/Poll has the rest of a poll.
use memo_repo.Prelude.{
  ℕ, String, suc, ◌+◌, ◌*◌, Bool, true, false, not, ◌&&◌, Option, none, some, List, ◌⊎◌, inl, inr,
  leb, ltb, ◌=?◌, ◌==◌, if◌then◌else◌,
}
use memo_repo.SignIn.Answers.{
  Answer, RequestError, conflict, not_found, bad_gateway, DeviceCode, parse_device_code_response,
  Viewer,
}

pub data AttemptStatus : Type 0 where
  pending : AttemptStatus
  connected : AttemptStatus
  denied : AttemptStatus
  expired : AttemptStatus
  failed : AttemptStatus

-- `DeviceAuthorizationAttempt`. Its verification URL is always the constant one. Times are
-- milliseconds.
pub record Attempt : Type 0 where
  pub id : String
  pub device_code : Option String
  pub user_code : String
  pub expires_at : ℕ
  pub interval_ms : ℕ
  pub next_poll_at : ℕ
  pub status : AttemptStatus
  pub error : Option String
  pub viewer : Option Viewer
  pub scopes : Option (List String)

pub record Credential : Type 0 where
  pub viewer : Viewer
  pub access_token : String
  pub token_type : String
  pub scopes : List String
  pub connected_at : ℕ

pub record SignIn : Type 0 where
  pub attempts : ℕ → Attempt
  -- How many attempts were made; the references are the numbers below it.
  pub made : ℕ
  pub active_attempt : Option ℕ
  pub credential : Option Credential
  pub environment_token_configured : Bool

abbrev pub set_attempt : ℕ → Attempt → SignIn → SignIn
set_attempt r a s = record s { attempts = λ x. if x =? r then a else s.attempts x }

abbrev pub is_pending : AttemptStatus → Bool
is_pending pending = true
is_pending _ = false

abbrev pub verification_url : String
verification_url = "https://github.com/login/device"

abbrev pub required_scope : String
required_scope = "repo"

-- `SLOW_DOWN_INCREMENT_MS`
abbrev pub slow_down_increment_ms : ℕ
slow_down_increment_ms = 5000

pub record PublicStart : Type 0 where
  pub attempt_id : String
  pub user_code : String
  pub start_expires_at : ℕ
  pub interval : ℕ

pub data PublicStatus : Type 0 where
  is_waiting : (expires_at next_poll_at : ℕ) → PublicStatus
  is_connected : Viewer → List String → PublicStatus
  is_ended : AttemptStatus → String → PublicStatus

-- `publicStart`, with the interval in milliseconds
unfoldable pub public_start : Attempt → PublicStart
public_start a = record {
  attempt_id = a.id;
  user_code = a.user_code;
  start_expires_at = a.expires_at;
  interval = a.interval_ms;
}

abbrev pub error_of : Attempt → String
error_of a = elim a.error [ none ↦ "GitHub authorization did not complete" | some e ↦ e ]

-- `publicStatus`
unfoldable pub public_status : Attempt → PublicStatus
public_status a = elim a.status [
  | pending ↦ is_waiting a.expires_at a.next_poll_at
  | connected ↦ elim a.viewer [
    | none ↦ is_ended failed (error_of a)
    | some v ↦ elim a.scopes [
      | none ↦ is_ended failed (error_of a)
      | some scopes ↦ is_connected v scopes
    ]
  ]
  | other ↦ is_ended other (error_of a)
]

-- `finishAttempt` on the attempt
unfoldable pub finished : AttemptStatus → String → Attempt → Attempt
finished status error a = record a { device_code = none; status = status; error = some error }

unfoldable pub finish_attempt : AttemptStatus → String → ℕ → SignIn → SignIn
finish_attempt status error r s = set_attempt r (finished status error (s.attempts r)) s

-- What a call that may have to ask GitHub comes to.
pub data Started : Type 0 where
  start_refused : RequestError → Started
  start_shown : PublicStart → Started
  code_asked : Started

unfoldable pub start_device_authorization : ℕ → SignIn → Started
start_device_authorization now s =
    if s.environment_token_configured then start_refused conflict else elim s.active_attempt [
      | none ↦ code_asked
      | some r ↦
          if is_pending (s.attempts r).status && ltb now (s.attempts r).expires_at
          then start_shown (public_start (s.attempts r))
          else code_asked
    ]

unfoldable pub new_attempt : ℕ → String → DeviceCode → Attempt
new_attempt now id code = record {
  id = id;
  device_code = some code.device_code;
  user_code = code.user_code;
  expires_at = now + code.expires_in * 1000;
  interval_ms = code.interval * 1000;
  next_poll_at = now + code.interval * 1000;
  status = pending;
  error = none;
  viewer = none;
  scopes = none;
}

abbrev add_attempt : Attempt → SignIn → SignIn
add_attempt a s = record (set_attempt s.made a s) {
  made = suc s.made;
  active_attempt = some s.made;
}

-- The rest of `startDeviceAuthorization`, from the answer on: `now` is the time of the call.
unfoldable pub device_code_answers :
    ℕ → String → Answer → SignIn → (RequestError ⊎ PublicStart) × SignIn
device_code_answers now id (inl e) s = (inl e, s)
device_code_answers now id (inr payload) s = elim (parse_device_code_response payload) [
  | none ↦ (inl bad_gateway, s)
  | some code ↦
      if code.verification_uri == verification_url
      then (inr (public_start (new_attempt now id code)), add_attempt (new_attempt now id code) s)
      else (inl bad_gateway, s)
]

abbrev pub is_attempt : String → ℕ → SignIn → Bool
is_attempt attempt_id r s = (s.attempts r).id == attempt_id

-- `requireAttempt`
unfoldable pub require_attempt : String → SignIn → Option ℕ
require_attempt attempt_id s = elim s.active_attempt [
  | none ↦ none
  | some r ↦ if is_attempt attempt_id r s then some r else none
]

pub data Polled : Type 0 where
  poll_refused : RequestError → Polled
  poll_shown : PublicStatus → Polled
  -- The access token is asked for.
  token_asked : ℕ → Polled

-- The attempt behind `attempt.nextPollAt = now + attempt.intervalMs`.
unfoldable pub polled_at : ℕ → Attempt → Attempt
polled_at now a = record a { next_poll_at = now + a.interval_ms }

unfoldable pub shown : ℕ → SignIn → Polled × SignIn
shown r s = (poll_shown (public_status (s.attempts r)), s)

unfoldable pub poll_attempt : ℕ → ℕ → SignIn → Polled × SignIn
poll_attempt now r s =
    if not (is_pending (s.attempts r).status)
    then shown r s
    else if leb (s.attempts r).expires_at now
    then shown r (finish_attempt expired "The GitHub authorization code expired" r s)
    else if ltb now (s.attempts r).next_poll_at
    then shown r s
    else (token_asked r, set_attempt r (polled_at now (s.attempts r)) s)

unfoldable pub get_device_authorization_status : String → ℕ → SignIn → Polled × SignIn
get_device_authorization_status attempt_id now s = elim (require_attempt attempt_id s) [
  | none ↦ (poll_refused not_found, s)
  | some r ↦ poll_attempt now r s
]
