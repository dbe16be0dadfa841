-- ===== src/SignIn/Sound.antt =====
-- What holds of the attempts and of the stored credential in every run.
use memo_repo.Prelude.{
  leb, ltb, ℕ, String, Bool, true, not, ◌||◌, Option, none, some, List, [], ◌∷◌, ◌++◌, ◌≡◌, refl,
  ◌⊎◌, inl, inr, set_has, ◌==◌, Bool-cases, every, and-eq-true, if-holds, elim-holds,
}
use memo_repo.Coverage.Paths.{Locale}
use memo_repo.SignIn.Answers.{
  Answer, RequestError, TokenResponse, parse_scopes, parse_viewer_response,
  parse_device_code_response,
}
use memo_repo.SignIn.Flow.{
  PublicStatus, token_asked, poll_refused, poll_shown, is_pending, verification_url, SignIn,
  Credential, PublicStatus, PublicStart, Polled, required_scope, finish_attempt,
  device_code_answers, get_device_authorization_status, require_attempt, poll_attempt, shown,
  start_device_authorization, Started, start_refused, start_shown, code_asked,
}
use memo_repo.SignIn.Poll.{
  Token, token_answers, viewer_answers, cancel_device_authorization, disconnect, save,
  handle_token_error,
}
use memo_repo.SignIn.Runs.{
  World, Waiting, for_code, for_token, for_viewer, Step, starts, polls, cancels, disconnects,
  code_arrives, token_arrives, viewer_arrives, Run, Run-keeps, new_world, start_waits, poll_waits,
  token_waits,
}
use memo_repo.SignIn.Invariant.{
  is_well_formed, AllWellFormed, get_status-AllWellFormed, device_code-AllWellFormed,
  token-AllWellFormed, viewer-AllWellFormed, cancel-AllWellFormed, disconnect-AllWellFormed,
}
use memo_repo.SignIn.Scopes.{set_has-normalize}

-- What is known of a call that waits for the account.
abbrev is_scoped : Waiting → Bool
is_scoped (for_code now) = true
is_scoped (for_token r now) = true
is_scoped (for_viewer r now token scopes) = set_has required_scope scopes

abbrev pub has_scope : Option Credential → Bool
has_scope none = true
has_scope (some c) = set_has required_scope c.scopes

every-splice :
    (before after : List Waiting) (p : Waiting)
    → every is_scoped (before ++ p ∷ after) ≡ true
    → (is_scoped p ≡ true) × (every is_scoped (before ++ after) ≡ true)
every-splice [] after p h = and-eq-true (is_scoped p) (every is_scoped after) h
every-splice (q ∷ before) after p h =
    let (k, l) = and-eq-true (is_scoped q) (every is_scoped (before ++ p ∷ after)) h in
    let (m, n) = every-splice before after p l in (m, rw (k, n) refl)

abbrev HasRepo : SignIn → Type 0
HasRepo s = has_scope s.credential ≡ true

poll-HasRepo :
    (attempt_id : String) (now : ℕ) (s : SignIn)
    → HasRepo s
    → HasRepo (get_device_authorization_status attempt_id now s).1
unfolding get_device_authorization_status poll_attempt shown finish_attempt
poll-HasRepo attempt_id now s h =
    let P = λ (x : Polled × SignIn). HasRepo x.1 in
    elim-holds P (require_attempt attempt_id s) h (λ r.
      if-holds P (not (is_pending (s.attempts r).status)) h (
        if-holds P (leb (s.attempts r).expires_at now) h
          (if-holds P (ltb now (s.attempts r).next_poll_at) h h)))

code-HasRepo :
    (now : ℕ) (id : String) (answer : Answer) (s : SignIn)
    → HasRepo s
    → HasRepo (device_code_answers now id answer s).1
unfolding device_code_answers
code-HasRepo now id (inl e) s h = h
code-HasRepo now id (inr payload) s h =
    let P = λ (x : (RequestError ⊎ PublicStart) × SignIn). HasRepo x.1 in
    elim-holds P (parse_device_code_response payload) h
      (λ code. if-holds P (code.verification_uri == verification_url) h h)

token_error-HasRepo :
    (r : ℕ) (payload : TokenResponse) (now : ℕ) (s : SignIn)
    → HasRepo s
    → HasRepo (handle_token_error r payload now s)
unfolding handle_token_error finish_attempt
token_error-HasRepo r payload now s h =
    if-holds HasRepo (payload.error == "authorization_pending") h (
      if-holds HasRepo (payload.error == "slow_down") h (
        if-holds HasRepo (payload.error == "access_denied") h
          (if-holds HasRepo (payload.error == "expired_token") h h)))

-- The token's answer: the credential stays, and the account is asked for with the scope only.
token-HasRepo :
    (w : Locale) (r now : ℕ) (answer : RequestError ⊎ TokenResponse) (ps : List Waiting)
    (s : SignIn)
    → HasRepo s
    → every is_scoped ps ≡ true
    → HasRepo (token_answers w r now answer s).1
      × (every is_scoped (token_waits now (token_answers w r now answer s).0 ps) ≡ true)
unfolding token_answers finish_attempt
token-HasRepo w r now (inl e) ps s h k = (h, k)
token-HasRepo w r now (inr payload) ps s h k =
    let P =
      λ (x : Token × SignIn). HasRepo x.1 × (every is_scoped (token_waits now x.0 ps) ≡ true) in
    if-holds P (not (payload.error == "")) (token_error-HasRepo r payload now s h, k)
      (if-holds P (payload.access_token == "" || payload.token_type == "") (h, k)
        (elim (Bool-cases (set_has required_scope (parse_scopes w payload.scope))) [
          | inl e ↦ rw (e, e) (h, k)
          | inr e ↦ rw e (h, k)
        ]))

viewer-HasRepo :
    (w : Locale) (r now : ℕ) (token : TokenResponse) (scopes : List String) (answer : Answer)
    (stored : Bool) (s : SignIn)
    → set_has required_scope scopes ≡ true
    → HasRepo s
    → HasRepo (viewer_answers w r now token scopes answer stored s).1
unfolding viewer_answers save finish_attempt
viewer-HasRepo w r now token scopes (inl e) stored s k h = h
viewer-HasRepo w r now token scopes (inr payload) stored s k h =
    let P = λ (x : Option PublicStatus × SignIn). HasRepo x.1 in
    elim-holds P (parse_viewer_response payload) h
      (λ viewer. if-holds P stored (set_has-normalize w scopes k) h)

cancel-HasRepo :
    (attempt_id : String) (s : SignIn)
    → HasRepo s
    → HasRepo (cancel_device_authorization attempt_id s).1
unfolding cancel_device_authorization finish_attempt
cancel-HasRepo attempt_id s h =
    let P = λ (x : Option Bool × SignIn). HasRepo x.1 in
    elim-holds P (require_attempt attempt_id s) h
      (λ r. if-holds P (is_pending (s.attempts r).status) h h)

disconnect-HasRepo : (s : SignIn) → HasRepo s → HasRepo (disconnect s).1
unfolding disconnect
disconnect-HasRepo s h =
    if-holds (λ (x : Bool × SignIn). HasRepo x.1) s.environment_token_configured h refl

abbrev IsGood : World → Type 0
IsGood u = AllWellFormed u.service × HasRepo u.service × (every is_scoped u.waiting ≡ true)

start_waits-every :
    (now : ℕ) (o : Started) (ps : List Waiting)
    → every is_scoped ps ≡ true
    → every is_scoped (start_waits now o ps) ≡ true
start_waits-every now code_asked ps h = h
start_waits-every now (start_refused e) ps h = h
start_waits-every now (start_shown p) ps h = h

poll_waits-every :
    (now : ℕ) (o : Polled) (ps : List Waiting)
    → every is_scoped ps ≡ true
    → every is_scoped (poll_waits now o ps) ≡ true
poll_waits-every now (token_asked r) ps h = h
poll_waits-every now (poll_refused e) ps h = h
poll_waits-every now (poll_shown p) ps h = h

Step-IsGood : (w : Locale) (u v : World) → IsGood u → Step w u v → IsGood v
Step-IsGood w u v (a, h, k) (starts now) =
    (a, h, start_waits-every now (start_device_authorization now u.service) u.waiting k)
Step-IsGood w u v (a, h, k) (polls attempt_id now) = (
  get_status-AllWellFormed attempt_id now u.service a,
  poll-HasRepo attempt_id now u.service h,
  poll_waits-every now (get_device_authorization_status attempt_id now u.service).0 u.waiting k,
)
Step-IsGood w u v (a, h, k) (cancels attempt_id) =
    (cancel-AllWellFormed attempt_id u.service a, cancel-HasRepo attempt_id u.service h, k)
Step-IsGood w u v (a, h, k) disconnects =
    (disconnect-AllWellFormed u.service a, disconnect-HasRepo u.service h, k)
Step-IsGood w u v (a, h, k) (code_arrives now before after id answer e) =
    let (_, rest) = every-splice before after (for_code now) (rw e at k) in
    (
      device_code-AllWellFormed now id answer u.service a,
      code-HasRepo now id answer u.service h,
      rest,
    )
Step-IsGood w u v (a, h, k) (token_arrives r now before after answer e) =
    let (_, rest) = every-splice before after (for_token r now) (rw e at k) in
    let (kept, waits) = token-HasRepo w r now answer (before ++ after) u.service h rest in
    (token-AllWellFormed w r now answer u.service a, kept, waits)
Step-IsGood w u v (a, h, k) (viewer_arrives r now token scopes before after answer stored e) =
    let (scoped, rest) = every-splice before after (for_viewer r now token scopes) (rw e at k) in
    (
      viewer-AllWellFormed w r now token scopes answer stored u.service scoped a,
      viewer-HasRepo w r now token scopes answer stored u.service scoped h,
      rest,
    )

-- Whatever is called and answered, in any order, from a new service with a credential that has the
-- required scope or with none: every attempt keeps its device code just while it is pending, one that
-- is connected has its account and the required scope, one that ended otherwise tells an error, and a
-- credential that is stored has the required scope.
pub Run-sound :
    (w : Locale) (configured : Bool) (credential : Option Credential)
    → has_scope credential ≡ true
    → (u : World) → Run w (new_world configured credential) u
    → ((r : ℕ) → is_well_formed (u.service.attempts r) ≡ true)
      × (has_scope u.service.credential ≡ true)
unfolding is_well_formed
Run-sound w configured credential h u run =
    let good =
      Run-keeps w IsGood (Step-IsGood w) (new_world configured credential) u ((λ r. refl), h, refl)
        run in
    (good.0, good.1)
