-- ===== src/SignIn/Poll.antt =====
-- The rest of `getDeviceAuthorizationStatus`, `cancelDeviceAuthorization`, `connectionStatus` and
-- `disconnect` (apps/api/src/services/githubOAuthService.ts), with `save`, `getMetadata` and `delete` of
-- apps/api/src/services/githubCredentialStore.ts, whose row has the fixed key `github`.
use memo_repo.Prelude.{
  ℕ, String, ◌+◌, ◌*◌, Bool, true, false, not, ◌||◌, Option, none, some, List, [], ◌∷◌, ◌⊎◌, inl,
  inr, leb, ◌==◌, if◌then◌else◌, set_has,
}
use memo_repo.Text.{is_some}
use memo_repo.Coverage.Paths.{Locale, unique_sorted}
use memo_repo.Domain.Slug.{trim}
use memo_repo.SignIn.Answers.{
  Answer, RequestError, Viewer, parse_viewer_response, TokenResponse, parse_scopes,
  safe_oauth_error,
}
use memo_repo.SignIn.Flow.{
  Attempt, SignIn, PublicStatus, set_attempt, is_pending, connected, denied, expired, failed,
  public_status, finish_attempt, required_scope, slow_down_increment_ms, require_attempt,
}

-- What the poll comes to when GitHub has answered the request for a token.
pub data Token : Type 0 where
  token_throws : RequestError → Token
  token_shown : PublicStatus → Token
  viewer_asked : (r : ℕ) (response : TokenResponse) (scopes : List String) → Token

unfoldable pub later : ℕ → Attempt → Attempt
later now a = record a { next_poll_at = now + a.interval_ms }

abbrev greater : ℕ → ℕ → ℕ
greater a b = if leb a b then b else a

unfoldable pub slower : ℕ → ℕ → Attempt → Attempt
slower now interval a =
    let slow = greater (a.interval_ms + slow_down_increment_ms) (interval * 1000) in
    record a { interval_ms = slow; next_poll_at = now + slow }

abbrev or_else : Option String → String → String
or_else none s = s
or_else (some e) s = e

-- `handleTokenError` on the store
unfoldable pub handle_token_error : ℕ → TokenResponse → ℕ → SignIn → SignIn
handle_token_error r payload now s =
    if payload.error == "authorization_pending"
    then set_attempt r (later now (s.attempts r)) s
    else if payload.error == "slow_down"
    then set_attempt r (slower now payload.interval (s.attempts r)) s
    else if payload.error == "access_denied"
    then finish_attempt denied "GitHub authorization was denied" r s
    else if payload.error == "expired_token"
    then finish_attempt expired "The GitHub authorization code expired" r s
    else finish_attempt failed
        (or_else (safe_oauth_error payload.error_description)
          "GitHub could not complete OAuth authorization")
        r s

abbrev shows : ℕ → SignIn → Token × SignIn
shows r s = (token_shown (public_status (s.attempts r)), s)

-- `now` is the time of the call of `getDeviceAuthorizationStatus`.
unfoldable pub token_answers :
    Locale → ℕ → ℕ → RequestError ⊎ TokenResponse → SignIn → Token × SignIn
token_answers w r now (inl e) s = (token_throws e, s)
token_answers w r now (inr payload) s =
    if not (payload.error == "")
    then shows r (handle_token_error r payload now s)
    else if payload.access_token == "" || payload.token_type == ""
    then shows r (finish_attempt failed "GitHub returned an invalid OAuth token response" r s)
    else if not (set_has required_scope (parse_scopes w payload.scope))
    then shows r
        (finish_attempt failed "GitHub authorization did not grant the required repo scope" r s)
    else (viewer_asked r payload (parse_scopes w payload.scope), s)

abbrev pub unvalidated : String
unvalidated = "GitHub authorized the device but the account could not be validated"

abbrev pub trim_all : List String → List String
trim_all [] = []
trim_all (s ∷ ss) = let rest = trim_all ss in if trim s == "" then rest else trim s ∷ rest

-- `normalizeScopes`
unfoldable pub normalize_scopes : Locale → List String → List String
normalize_scopes w scopes = unique_sorted w (trim_all scopes)

unfoldable pub save : Locale → ℕ → Viewer → TokenResponse → List String → SignIn → SignIn
save w now viewer token scopes s = record s {
  credential = some (record {
    viewer = viewer;
    access_token = token.access_token;
    token_type = token.token_type;
    scopes = normalize_scopes w scopes;
    connected_at = now;
  });
}

unfoldable pub connected_as : Viewer → List String → Attempt → Attempt
connected_as viewer scopes a = record a {
  device_code = none;
  status = connected;
  viewer = some viewer;
  scopes = some scopes;
}

-- The rest of the poll behind `fetchViewer`. `stored` tells whether the database takes the row. A throw
-- is shown as `none`.
unfoldable pub viewer_answers :
    Locale
    → ℕ
    → ℕ
    → TokenResponse
    → List String
    → Answer
    → Bool
    → SignIn
    → Option PublicStatus × SignIn
viewer_answers w r now token scopes (inl e) stored s = (none, finish_attempt failed unvalidated r s)
viewer_answers w r now token scopes (inr payload) stored s = elim (parse_viewer_response payload) [
  | none ↦ (none, finish_attempt failed unvalidated r s)
  | some viewer ↦
      let done =
        set_attempt r (connected_as viewer scopes (s.attempts r))
          (save w now viewer token scopes s) in
      if stored
      then (some (public_status (done.attempts r)), done)
      else (none, finish_attempt failed unvalidated r s)
]

-- `requireAttempt` throws where `none` stands.
unfoldable pub cancel_device_authorization : String → SignIn → Option Bool × SignIn
cancel_device_authorization attempt_id s = elim (require_attempt attempt_id s) [
  | none ↦ (none, s)
  | some r ↦
      if is_pending (s.attempts r).status
      then (some true, finish_attempt denied "GitHub authorization was cancelled locally" r s)
      else (some false, s)
]

pub data ConnectionStatus : Type 0 where
  by_token : ConnectionStatus
  by_oauth : Option (Viewer × List String) → ConnectionStatus

unfoldable pub connection_status : SignIn → ConnectionStatus
connection_status s =
    if s.environment_token_configured
    then by_token
    else by_oauth (elim s.credential [ none ↦ none | some c ↦ some (c.viewer, c.scopes) ])

unfoldable pub disconnect : SignIn → Bool × SignIn
disconnect s =
    if s.environment_token_configured
    then (false, record s { active_attempt = none })
    else (is_some s.credential, record s { active_attempt = none; credential = none })
