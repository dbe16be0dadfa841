-- ===== src/Jobs/Coalesce.antt =====
-- `enqueueCoalesced` of jobRunner.ts.
pub mod Moves
pub mod Single
use Prim.Native.Char.{code}
use Prim.Native.String
use memo_repo.Prelude.{
  ℕ, String, Bool, true, false, not, ◌&&◌, Option, none, some, List, [], ◌∷◌, ◌==◌, if◌then◌else◌,
  is_value, filter, find?, any,
}
use memo_repo.Json.{Json, str, obj, Fields, end, field}
use memo_repo.Json.Stable.{stable_json_stringify, units_lt}
use memo_repo.Text.{is_blank}
use memo_repo.Jobs.Store.{Job, Dependency, Database, update_job, is_pending, is_running, is_active}
use memo_repo.Jobs.Runner.{
  ◌>>=◌, Runner, Result, ok, err, create_id, drawn, empty_fingerprint, unique_violation,
}
use memo_repo.Jobs.Events.{write_event}
use memo_repo.Jobs.Tick.{as_cancelled, request_tick}
use memo_repo.Jobs.Enqueue.{
  Input, normalize_dependency_job_ids, has_active_key, new_job, insert_with_dependencies,
  replace_dependencies, order_by, is_older, insert_text, sort_texts,
}

-- `{ ...payload, inputFingerprint }`
unfoldable pub set_field : String → Json → Fields → Fields
set_field k v end = field k v end
set_field k v (field j w fs) = if j == k then field k v fs else field j w (set_field k v fs)

-- ORDER BY CASE status WHEN 'running' THEN 0 ELSE 1 END, created_at ASC, id ASC
abbrev running_first : Job → Job → Bool
running_first j k =
    if is_running j.status
    then (if is_running k.status then is_older j k else true)
    else (if is_running k.status then false else is_older j k)

abbrev pub is_active_for : String → String → Job → Bool
is_active_for kind space j = (j.kind == kind && is_value j.space_id space) && is_active j.status

unfoldable pub active_jobs_for : String → String → Database → List Job
unfolding order_by
active_jobs_for kind space db = order_by running_first (filter (is_active_for kind space) db.jobs)

abbrev dependency_names : List Dependency → List String
dependency_names [] = []
dependency_names (r ∷ rs) = r.dependency_job_id ∷ dependency_names rs

-- SQLite compares texts by their bytes in UTF-8, which is by their code points.
unfoldable pub code_points : String → List ℕ
code_points String.[] = []
code_points (String.◌∷◌ c s) = code c ∷ code_points s

unfoldable pub insert_binary : String → List String → List String
insert_binary v [] = v ∷ []
insert_binary v (w ∷ ws) =
    let rest = insert_binary v ws in
    if units_lt (code_points w) (code_points v) then w ∷ rest else v ∷ w ∷ ws

-- ORDER BY dependency_job_id
unfoldable pub order_binary : List String → List String
order_binary [] = []
order_binary (v ∷ vs) = insert_binary v (order_binary vs)

-- `dependencyIds`
unfoldable pub dependency_ids : String → Database → List String
unfolding order_binary insert_binary
dependency_ids job_id db =
    order_binary (dependency_names (filter (λ r. r.job_id == job_id) db.dependencies))

-- `sameStringSet`
unfoldable pub same_string_set : List String → List String → Bool
same_string_set [] [] = true
same_string_set (v ∷ vs) (w ∷ ws) = v == w && same_string_set vs ws
same_string_set _ _ = false

-- The candidate that holds the requested inputs already.
unfoldable pub holds_inputs : String → List String → Database → Job → Bool
holds_inputs payload_json dependencies db c =
    c.payload_json == payload_json && same_string_set (dependency_ids c.id db) dependencies

abbrev pub superseded_message : String
superseded_message = "Superseded because the active job already matches the latest requested inputs"

unfoldable pub obsolete_pending : Job → List Job → Option Job
obsolete_pending c active =
    if is_running c.status
    then find? (λ j. is_pending j.status && not (j.id == c.id)) active
    else none

-- What the transaction gives: the flags, the superseded job and the job that is returned.
pub record Coalesced : Type 0 where
  pub created : Bool
  pub updated : Bool
  pub superseded_id : Option String
  pub job : Job

matched : Option Job → Job → ℕ → Database → Coalesced × Database
matched none c at db =
    (record { created = false; updated = false; superseded_id = none; job = c }, db)
matched (some o) c at db = (
  record { created = false; updated = false; superseded_id = some o.id; job = c },
  update_job o.id (as_cancelled superseded_message at) db,
)

abbrev pub as_requested : Job → Job → Job
as_requested new j = record j {
  payload_json = new.payload_json;
  depends_on_job_id = new.depends_on_job_id;
  deduplication_key = new.deduplication_key;
  error = none;
}

abbrev has_same_key : Option String → Job → Bool
has_same_key none k = false
has_same_key (some key) k = has_active_key key k

-- UPDATE jobs SET payload_json = ?, … : the unique index refuses the key of another active job.
unfoldable pub update_pending : Job → Job → Database → Result Database
update_pending new p db =
    if any (λ k. not (k.id == p.id) && has_same_key new.deduplication_key k) db.jobs
    then err unique_violation
    else ok (update_job p.id (as_requested new) db)

coalesce_into : Option Job → Job → List String → Database → Result (Coalesced × Database)
unfolding update_pending
coalesce_into (some p) new dependencies db = do
  updated ← update_pending new p db
  replaced ← replace_dependencies p.id dependencies new.created_at updated
  ok (
    record {
      created = false;
      updated = true;
      superseded_id = none;
      job = record new { id = p.id; created_at = p.created_at };
    },
    replaced,
  )
coalesce_into none new dependencies db = do
  inserted ← insert_with_dependencies new dependencies db
  ok (record { created = true; updated = false; superseded_id = none; job = new }, inserted)

coalesce_unless :
    Option Job → List Job → Job → List String → Database → Result (Coalesced × Database)
unfolding matched coalesce_into
coalesce_unless (some c) active new dependencies db =
    ok (matched (obsolete_pending c active) c new.created_at db)
coalesce_unless none active new dependencies db =
    coalesce_into (find? (λ j. is_pending j.status) active) new dependencies db

-- The transaction of `enqueueCoalesced`.
unfoldable pub coalesce : String → Job → List String → Database → Result (Coalesced × Database)
unfolding coalesce_unless
coalesce space new dependencies db =
    let active = active_jobs_for new.kind space db in
    coalesce_unless (find? (holds_inputs new.payload_json dependencies db) active) active new
      dependencies db

report : Coalesced → Runner → Runner
report c r =
    if c.created
    then write_event c.job.id "status" "pending" r
    else if c.updated
    then write_event c.job.id "coalesced" "Pending job updated to the latest requested inputs" r
    else r

report_superseded : Option String → Runner → Runner
report_superseded none r = r
report_superseded (some id) r = write_event id "status" "cancelled" r

finish_coalesced : Result (Coalesced × Database) → Runner → Result Job × Runner
unfolding report report_superseded
finish_coalesced (err e) r = (err e, r)
finish_coalesced (ok (c, db)) r =
    (ok c.job, request_tick (report_superseded c.superseded_id (report c (record r { db = db }))))

coalesced_depending : Input → String → String → Result (List String) → Runner → Result Job × Runner
unfolding finish_coalesced
coalesced_depending i space fingerprint (err e) r = (err e, r)
coalesced_depending i space fingerprint (ok dependencies) r =
    let payload = set_field "inputFingerprint" (str fingerprint) i.payload in
    let asked = record i { space_id = some space } in
    let new =
      new_job (create_id "job" r) asked dependencies (stable_json_stringify (obj payload)) r in
    finish_coalesced (coalesce space new dependencies r.db) (drawn r)

-- `input.spaceId` is the argument `space`.
unfoldable pub enqueue_coalesced : Input → String → String → Runner → Result Job × Runner
unfolding coalesced_depending
enqueue_coalesced i space fingerprint r =
    if is_blank fingerprint
    then (err empty_fingerprint, r)
    else coalesced_depending i space fingerprint (normalize_dependency_job_ids i) r
