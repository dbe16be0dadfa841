-- ===== src/SignIn/Configured.antt =====
-- A service that has GH_TOKEN never signs in, and a cancellation does not reach a poll under way.
use memo_repo.Prelude.{
  false, some, Bool, ℕ, String, ◌≢◌, true, Option, none, List, [], ◌∷◌, ◌++◌, ◌≡◌, refl, sym, ◌∙◌,
}
use memo_repo.Coverage.Paths.{Locale}
use memo_repo.SignIn.Answers.{
  not_found, TokenResponse, Payload, Viewer, parse_viewer_response, parse_scopes,
}
use memo_repo.SignIn.Poll.{viewer_asked, token_answers, viewer_answers, connected_as, save}
use memo_repo.SignIn.Flow.{
  is_pending, finished, finish_attempt, pending, denied, connected, required_scope,
}
use memo_repo.Text.{is_some}
use memo_repo.Prelude.{
  ◌==◌, ◌||◌, not, ◌&&◌, set_has, inr, arith, and-eq-true, eq_refl, ap, ◌∙◌, ◌=?◌,
}
use memo_repo.SignIn.Flow.{
  poll_refused, finished, SignIn, finish_attempt, Credential, get_device_authorization_status,
  require_attempt, start_device_authorization,
}
use memo_repo.SignIn.Poll.{
  save, connected_as, token_answers, viewer_answers, cancel_device_authorization, disconnect,
}
use memo_repo.SignIn.Runs.{
  World, Waiting, for_code, for_token, for_viewer, Step, starts, polls, cancels, disconnects,
  code_arrives, token_arrives, viewer_arrives, Run, Run-keeps, new_world,
}

-- A service with GH_TOKEN, no attempt and the credential that it started with.
abbrev pub IsQuiet : Option Credential → World → Type 0
IsQuiet credential u =
    (u.service.environment_token_configured ≡ true)
    × (u.service.active_attempt ≡ none)
    × (u.service.credential ≡ credential)
    × (u.waiting ≡ [])

not-splice : (before after : List Waiting) (p : Waiting) → before ++ p ∷ after ≢ []
not-splice [] after p h = cc
not-splice (q ∷ before) after p h = cc

no-poll :
    (attempt_id : String) (now : ℕ) (s : SignIn)
    → s.active_attempt ≡ none
    → get_device_authorization_status attempt_id now s ≡ (poll_refused not_found, s)
unfolding get_device_authorization_status require_attempt
no-poll attempt_id now s a = ground arith

no-cancel :
    (attempt_id : String) (s : SignIn)
    → s.active_attempt ≡ none
    → cancel_device_authorization attempt_id s ≡ (none, s)
unfolding cancel_device_authorization require_attempt
no-cancel attempt_id s a = ground arith

Step-IsQuiet :
    (w : Locale) (credential : Option Credential) (u v : World)
    → IsQuiet credential u
    → Step w u v
    → IsQuiet credential v
unfolding start_device_authorization get_device_authorization_status require_attempt
    cancel_device_authorization disconnect
Step-IsQuiet w c u v (t, a, h, k) (starts now) = (t, a, h, rw t k)
Step-IsQuiet w c u v (t, a, h, k) (polls attempt_id now) =
    rw (no-poll attempt_id now u.service a) (t, a, h, k)
Step-IsQuiet w c u v (t, a, h, k) (cancels attempt_id) =
    rw (no-cancel attempt_id u.service a) (t, a, h, k)
Step-IsQuiet w c u v (t, a, h, k) disconnects = rw t (refl, refl, h, k)
Step-IsQuiet w c u v (t, a, h, k) (code_arrives now before after id answer e) =
    absurd (not-splice before after (for_code now) (sym e ∙ k))
Step-IsQuiet w c u v (t, a, h, k) (token_arrives r now before after answer e) =
    absurd (not-splice before after (for_token r now) (sym e ∙ k))
Step-IsQuiet w c u v (t, a, h, k) (viewer_arrives r now token scopes before after answer stored e) =
    absurd (not-splice before after (for_viewer r now token scopes) (sym e ∙ k))

-- A service that is configured with GH_TOKEN never starts an attempt, never asks GitHub for anything,
-- and leaves a stored credential as it is, whatever is called.
pub Run-IsQuiet :
    (w : Locale) (credential : Option Credential) (u : World)
    → Run w (new_world true credential) u
    → IsQuiet credential u
Run-IsQuiet w credential u run =
    Run-keeps w (IsQuiet credential) (Step-IsQuiet w credential) (new_world true credential) u
      (refl, refl, refl, refl) run

-- What GitHub has to answer for the account to be read.
abbrev pub answers_with : TokenResponse → Locale → Bool
answers_with token w =
    token.error == ""
    && not (token.access_token == "" || token.token_type == "")
    && set_has required_scope (parse_scopes w token.scope)

-- The two answers of a poll of the attempt r that was made at the time `now`.
abbrev pub answered : Locale → ℕ → ℕ → TokenResponse → Payload → SignIn → SignIn
answered w r now token account s =
    (viewer_answers w r now token (parse_scopes w token.scope) (inr account) true
      (token_answers w r now (inr token) s).1).1

abbrev pub cancelled : ℕ → SignIn → Option Bool
cancelled r s = (cancel_device_authorization (s.attempts r).id s).0

abbrev pub after_cancel : ℕ → SignIn → SignIn
after_cancel r s = (cancel_device_authorization (s.attempts r).id s).1

viewer-connected :
    (w : Locale) (r now : ℕ) (token : TokenResponse) (scopes : List String) (account : Payload)
    (viewer : Viewer) (s : SignIn)
    → parse_viewer_response account ≡ some viewer
    → (((viewer_answers w r now token scopes (inr account) true s).1.attempts r).status ≡ connected)
      × (is_some (viewer_answers w r now token scopes (inr account) true s).1.credential ≡ true)
unfolding viewer_answers connected_as save
viewer-connected w r now token scopes account viewer s v =
    let e : (r =? r) ≡ true = ground arith in rw (v, viewer_answers, e) (refl, refl)

asks-viewer :
    (w : Locale) (r now : ℕ) (token : TokenResponse) (s : SignIn)
    → answers_with token w ≡ true
    → (token_answers w r now (inr token) s).0 ≡ viewer_asked r token (parse_scopes w token.scope)
unfolding token_answers
asks-viewer w r now token s h =
    let (e, k) =
      and-eq-true (token.error == "" && not (token.access_token == "" || token.token_type == ""))
        (set_has required_scope (parse_scopes w token.scope)) h in
    let (n, t) =
      and-eq-true (token.error == "") (not (token.access_token == "" || token.token_type == ""))
        e in
    let f : (token.access_token == "" || token.token_type == "") ≡ false = ground arith in
    rw (n, f, k) refl

cancel-pending :
    (r : ℕ) (s : SignIn)
    → s.active_attempt ≡ some r
    → (s.attempts r).status ≡ pending
    → cancel_device_authorization (s.attempts r).id s
      ≡ (some true, finish_attempt denied "GitHub authorization was cancelled locally" r s)
unfolding cancel_device_authorization require_attempt
cancel-pending r s a p =
    let q : require_attempt (s.attempts r).id s ≡ some r =
      ground (arith, eq_refl (s.attempts r).id) in
    let b : is_pending (s.attempts r).status ≡ true = rw p refl in
    rw (q, cancel_device_authorization, b) refl

-- A poll that is under way ignores a cancellation: if an attempt that waits is cancelled, which tells
-- that it was, and the answers to a poll of before arrive then, granting the scope and with an account,
-- the attempt is connected all the same, and the token is stored.
pub answered-cancel :
    (w : Locale) (r now : ℕ) (token : TokenResponse) (account : Payload) (viewer : Viewer)
    (s : SignIn)
    → s.active_attempt ≡ some r
    → (s.attempts r).status ≡ pending
    → answers_with token w ≡ true
    → parse_viewer_response account ≡ some viewer
    → (cancelled r s ≡ some true)
      × ((token_answers w r now (inr token) (after_cancel r s)).0
          ≡ viewer_asked r token (parse_scopes w token.scope))
      × (((after_cancel r s).attempts r).status ≡ denied)
      × (((answered w r now token account (after_cancel r s)).attempts r).status ≡ connected)
      × (is_some (answered w r now token account (after_cancel r s)).credential ≡ true)
unfolding finish_attempt finished
answered-cancel w r now token account viewer s a p h v =
    let e : (r =? r) ≡ true = ground arith in
    let c = cancel-pending r s a p in
    let ended = ap (λ (x : Option Bool × SignIn). (x.1.attempts r).status) c ∙ rw e refl in
    let (settled, kept) =
      viewer-connected w r now token (parse_scopes w token.scope) account viewer
        (token_answers w r now (inr token) (after_cancel r s)).1 v in
    (
      ap (λ (x : Option Bool × SignIn). x.0) c,
      asks-viewer w r now token (after_cancel r s) h,
      ended,
      settled,
      kept,
    )
