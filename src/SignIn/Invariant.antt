-- ===== src/SignIn/Invariant.antt =====
-- What holds of the attempts and of the credential whatever happens.
use memo_repo.Prelude.{
  if-holds, elim-holds, leb, ltb, ◌==◌, ◌||◌, ℕ, String, Bool, true, false, not, ◌&&◌, Option, none,
  some, List, ◌≡◌, refl, ◌⊎◌, inl, inr, set_has, ◌=?◌, Bool-cases,
}
use memo_repo.Text.{is_some}
use memo_repo.Coverage.Paths.{Locale}
use memo_repo.SignIn.Answers.{
  parse_scopes, Answer, RequestError, TokenResponse, parse_device_code_response,
  parse_viewer_response,
}
use memo_repo.SignIn.Flow.{
  Polled, PublicStart, PublicStatus, verification_url, is_pending, Attempt, AttemptStatus, SignIn,
  pending, connected, denied, expired, failed, set_attempt, finished, finish_attempt, new_attempt,
  device_code_answers, get_device_authorization_status, poll_attempt, polled_at, shown,
  required_scope, require_attempt,
}
use memo_repo.SignIn.Poll.{
  Token, unvalidated, handle_token_error, later, slower, token_answers, viewer_answers,
  cancel_device_authorization, disconnect, save, connected_as,
}

abbrev pub has_repo : Option (List String) → Bool
has_repo none = false
has_repo (some scopes) = set_has required_scope scopes

-- An attempt has a device code just while it is pending; one that is connected has the account and the
-- scopes, the required one among them; one that ended otherwise has an error.
unfoldable pub is_well_formed : Attempt → Bool
is_well_formed a = elim a.status [
  | pending ↦ is_some a.device_code
  | connected ↦ not (is_some a.device_code) && is_some a.viewer && has_repo a.scopes
  | other ↦ not (is_some a.device_code) && is_some a.error
]

abbrev pub AllWellFormed : SignIn → Type 0
AllWellFormed s = (r : ℕ) → is_well_formed (s.attempts r) ≡ true

pub set_attempt-AllWellFormed :
    (q : ℕ) (a : Attempt) (s : SignIn)
    → AllWellFormed s
    → is_well_formed a ≡ true
    → AllWellFormed (set_attempt q a s)
set_attempt-AllWellFormed q a s h k r = elim (Bool-cases (r =? q)) [
  | inl e ↦ rw e k
  | inr e ↦ rw e (h r)
]

pub finish-AllWellFormed :
    (status : AttemptStatus) (error : String) (q : ℕ) (s : SignIn)
    → (status ≡ denied) ⊎ ((status ≡ expired) ⊎ (status ≡ failed))
    → AllWellFormed s
    → AllWellFormed (finish_attempt status error q s)
unfolding finish_attempt finished is_well_formed
finish-AllWellFormed status error q s (inl e) h = rw e (set_attempt-AllWellFormed q _ s h refl)
finish-AllWellFormed status error q s (inr (inl e)) h =
    rw e (set_attempt-AllWellFormed q _ s h refl)
finish-AllWellFormed status error q s (inr (inr e)) h =
    rw e (set_attempt-AllWellFormed q _ s h refl)

pub poll-AllWellFormed :
    (now r : ℕ) (s : SignIn) → AllWellFormed s → AllWellFormed (poll_attempt now r s).1
unfolding poll_attempt shown polled_at is_well_formed
poll-AllWellFormed now r s h =
    let P = λ (x : Polled × SignIn). AllWellFormed x.1 in
    if-holds P (not (is_pending (s.attempts r).status)) h (
      if-holds P (leb (s.attempts r).expires_at now)
        (finish-AllWellFormed expired "The GitHub authorization code expired" r s (inr (inl refl))
          h)
        (if-holds P (ltb now (s.attempts r).next_poll_at) h
          (set_attempt-AllWellFormed r (polled_at now (s.attempts r)) s h (h r))))

pub device_code-AllWellFormed :
    (now : ℕ) (id : String) (answer : Answer) (s : SignIn)
    → AllWellFormed s
    → AllWellFormed (device_code_answers now id answer s).1
unfolding device_code_answers new_attempt is_well_formed
device_code-AllWellFormed now id (inl e) s h = h
device_code-AllWellFormed now id (inr payload) s h =
    let P = λ (x : (RequestError ⊎ PublicStart) × SignIn). AllWellFormed x.1 in
    elim-holds P (parse_device_code_response payload) h (λ code.
      if-holds P (code.verification_uri == verification_url)
        (set_attempt-AllWellFormed s.made (new_attempt now id code) s h refl) h)

pub get_status-AllWellFormed :
    (attempt_id : String) (now : ℕ) (s : SignIn)
    → AllWellFormed s
    → AllWellFormed (get_device_authorization_status attempt_id now s).1
unfolding get_device_authorization_status
get_status-AllWellFormed attempt_id now s h =
    elim-holds (λ (x : Polled × SignIn). AllWellFormed x.1) (require_attempt attempt_id s) h
      (λ r. poll-AllWellFormed now r s h)

pub token_error-AllWellFormed :
    (r : ℕ) (payload : TokenResponse) (now : ℕ) (s : SignIn)
    → AllWellFormed s
    → AllWellFormed (handle_token_error r payload now s)
unfolding handle_token_error later slower is_well_formed
token_error-AllWellFormed r payload now s h =
    if-holds AllWellFormed (payload.error == "authorization_pending")
      (set_attempt-AllWellFormed r (later now (s.attempts r)) s h (h r))
      (if-holds AllWellFormed (payload.error == "slow_down")
        (set_attempt-AllWellFormed r (slower now payload.interval (s.attempts r)) s h (h r))
        (if-holds AllWellFormed (payload.error == "access_denied")
          (finish-AllWellFormed denied _ r s (inl refl) h)
          (if-holds AllWellFormed (payload.error == "expired_token")
            (finish-AllWellFormed expired _ r s (inr (inl refl)) h)
            (finish-AllWellFormed failed _ r s (inr (inr refl)) h))))

pub token-AllWellFormed :
    (w : Locale) (r now : ℕ) (answer : RequestError ⊎ TokenResponse) (s : SignIn)
    → AllWellFormed s
    → AllWellFormed (token_answers w r now answer s).1
unfolding token_answers
token-AllWellFormed w r now (inl e) s h = h
token-AllWellFormed w r now (inr payload) s h =
    let P = λ (x : Token × SignIn). AllWellFormed x.1 in
    let fails = λ (error : String). finish-AllWellFormed failed error r s (inr (inr refl)) h in
    if-holds P (not (payload.error == "")) (token_error-AllWellFormed r payload now s h) (
      if-holds P (payload.access_token == "" || payload.token_type == "") (fails _)
        (if-holds P (not (set_has required_scope (parse_scopes w payload.scope))) (fails _) h))

pub viewer-AllWellFormed :
    (w : Locale) (r now : ℕ) (token : TokenResponse) (scopes : List String) (answer : Answer)
    (stored : Bool) (s : SignIn)
    → set_has required_scope scopes ≡ true
    → AllWellFormed s
    → AllWellFormed (viewer_answers w r now token scopes answer stored s).1
unfolding viewer_answers save connected_as is_well_formed
viewer-AllWellFormed w r now token scopes (inl e) stored s k h =
    finish-AllWellFormed failed _ r s (inr (inr refl)) h
viewer-AllWellFormed w r now token scopes (inr payload) stored s k h =
    let P = λ (x : Option PublicStatus × SignIn). AllWellFormed x.1 in
    let fails = finish-AllWellFormed failed unvalidated r s (inr (inr refl)) h in
    elim-holds P (parse_viewer_response payload) fails (λ viewer.
      if-holds P stored
        (set_attempt-AllWellFormed r (connected_as viewer scopes (s.attempts r))
          (save w now viewer token scopes s) h (rw k refl))
        fails)

pub cancel-AllWellFormed :
    (attempt_id : String) (s : SignIn)
    → AllWellFormed s
    → AllWellFormed (cancel_device_authorization attempt_id s).1
unfolding cancel_device_authorization
cancel-AllWellFormed attempt_id s h =
    let P = λ (x : Option Bool × SignIn). AllWellFormed x.1 in
    elim-holds P (require_attempt attempt_id s) h (λ r.
      if-holds P (is_pending (s.attempts r).status) (finish-AllWellFormed denied _ r s (inl refl) h)
        h)

pub disconnect-AllWellFormed : (s : SignIn) → AllWellFormed s → AllWellFormed (disconnect s).1
unfolding disconnect
disconnect-AllWellFormed s h =
    if-holds (λ (x : Bool × SignIn). AllWellFormed x.1) s.environment_token_configured h h
