-- ===== src/Jobs/Enqueue.antt =====
-- `enqueue`, `enqueueCoalesced` and what they call in jobRunner.ts.
pub mod Order
pub mod Refusal
pub mod Moves
use Prim.Native.String.{compare}
use memo_repo.Prelude.{
  ℕ, String, Bool, true, false, not, ◌&&◌, ◌||◌, Option, none, some, List, [], ◌∷◌, ◌++◌, ltb, ◌=?◌,
  ◌==◌, if◌then◌else◌, is_value, filter, any, set_has,
}
use memo_repo.EventBus.{truthy}
use memo_repo.Json.{Json, null, str, arr, obj, Items, nil, cons, Fields, stringify}
use memo_repo.Json.Stable.{js_lt, stable_json_stringify}
use memo_repo.Text.{is_some}
use memo_repo.Jobs.Store.{Job, pending, Dependency, Database, find_job, is_active}
use memo_repo.Jobs.Runner.{
  ◌>>=◌, Runner, Env, Result, ok, err, create_id, now, drawn, bad_dependency_id, unique_violation,
  foreign_key_violation, check_violation,
}
use memo_repo.Jobs.Events.{write_event}
use memo_repo.Jobs.Tick.{request_tick}

-- `EnqueueJobInput`; the payload is an object, and an absent one is empty.
pub record Input : Type 0 where
  pub kind : String  -- `type`
  pub payload : Fields
  pub space_id : Option String
  pub space_repository_id : Option String
  pub depends_on_job_id : Option String
  pub depends_on_job_ids : List String

-- `[...new Set(values)]`
unfoldable pub distinct : List String → List String → List String
distinct seen [] = []
distinct seen (v ∷ vs) =
    let fresh = v ∷ distinct (v ∷ seen) vs in
    let rest = distinct seen vs in if set_has v seen then rest else fresh

unfoldable pub insert_text : String → List String → List String
insert_text v [] = v ∷ []
insert_text v (w ∷ ws) = if js_lt w v then w ∷ insert_text v ws else v ∷ w ∷ ws

-- `.sort()`
unfoldable pub sort_texts : List String → List String
sort_texts [] = []
sort_texts (v ∷ vs) = insert_text v (sort_texts vs)

abbrev to_list : Option String → List String
to_list none = []
to_list (some v) = v ∷ []

unfoldable pub normalize_dependency_job_ids : Input → Result (List String)
unfolding distinct sort_texts insert_text
normalize_dependency_job_ids i =
    let values = i.depends_on_job_ids ++ to_list (truthy i.depends_on_job_id) in
    if any (λ v. v == "") values
    then err bad_dependency_id
    else ok (sort_texts (distinct [] values))

abbrev nullable : Option String → Json
nullable none = null
nullable (some s) = str s

abbrev texts : List String → Items
texts [] = nil
texts (v ∷ vs) = cons (str v) (texts vs)

-- `createJobDeduplicationKey`: the digest of the text of this list.
unfoldable pub deduplication_source : Job → List String → String
deduplication_source j dependencies = stringify (
    arr (
      cons (str j.kind) (
        cons (nullable j.space_id) (
          cons (nullable j.space_repository_id)
            (cons (arr (texts dependencies)) (cons (str j.payload_json) nil))))))

unfoldable pub create_job_deduplication_key : Env → Job → List String → String
create_job_deduplication_key env j dependencies = env.sha256 (deduplication_source j dependencies)

-- The unique index over the keys of pending and running jobs.
abbrev pub has_active_key : String → Job → Bool
has_active_key key j = is_active j.status && is_value j.deduplication_key key

abbrev has_key_of : Job → Job → Bool
has_key_of j k = elim j.deduplication_key [ none ↦ false | some key ↦ has_active_key key k ]

-- INSERT INTO jobs
unfoldable pub insert_job : Job → Database → Result Database
insert_job j db =
    if any (λ k. k.id == j.id) db.jobs
    then err unique_violation
    else if is_active j.status && any (has_key_of j) db.jobs
    then err unique_violation
    else ok (record db { jobs = db.jobs ++ j ∷ [] })

abbrev is_row : String → String → Dependency → Bool
is_row job_id dependency r = r.job_id == job_id && r.dependency_job_id == dependency

-- INSERT INTO job_dependencies
unfoldable pub insert_dependency : Dependency → Database → Result Database
insert_dependency r db =
    if r.job_id == r.dependency_job_id
    then err check_violation
    else if any (is_row r.job_id r.dependency_job_id) db.dependencies
    then err unique_violation
    else if is_some (find_job r.job_id db.jobs) && is_some (find_job r.dependency_job_id db.jobs)
    then ok (record db { dependencies = db.dependencies ++ r ∷ [] })
    else err foreign_key_violation

-- `insertDependencies`
unfoldable pub insert_dependencies : String → List String → ℕ → Database → Result Database
insert_dependencies job_id [] at db = ok db
insert_dependencies job_id (d ∷ ds) at db =
    insert_dependency (record { job_id = job_id; dependency_job_id = d; created_at = at }) db
    >>= insert_dependencies job_id ds at

abbrev without_rows_of : String → Database → Database
without_rows_of job_id db = record db {
  dependencies = filter (λ r. not (r.job_id == job_id)) db.dependencies;
}

-- `replaceDependencies`
unfoldable pub replace_dependencies : String → List String → ℕ → Database → Result Database
unfolding insert_dependencies
replace_dependencies job_id ds at db = insert_dependencies job_id ds at (without_rows_of job_id db)

abbrev text_lt : String → String → Bool
text_lt s t = elim (compare s t) [ Prim.Native.Nat.Ordering.lt ↦ true | _ ↦ false ]

-- ORDER BY created_at ASC, id ASC
unfoldable pub is_older : Job → Job → Bool
is_older j k = ltb j.created_at k.created_at || (j.created_at =? k.created_at && text_lt j.id k.id)

unfoldable pub insert_by : (Job → Job → Bool) → Job → List Job → List Job
insert_by before j [] = j ∷ []
insert_by before j (k ∷ ks) = if before k j then k ∷ insert_by before j ks else j ∷ k ∷ ks

unfoldable pub order_by : (Job → Job → Bool) → List Job → List Job
order_by before [] = []
order_by before (j ∷ js) = insert_by before j (order_by before js)

abbrev pub head? {ℓ} : {A : Type ℓ} → List A → Option A
head? [] = none
head? (x ∷ xs) = some x

-- `findActiveDuplicate`
unfoldable pub find_active_duplicate : String → Database → Option Job
unfolding order_by insert_by is_older
find_active_duplicate key db = head? (order_by is_older (filter (has_active_key key) db.jobs))

-- The record that both operations make.
unfoldable pub new_job : String → Input → List String → String → Runner → Job
new_job id i dependencies payload_json r =
    let bare : Job = record {
      id = id;
      kind = i.kind;
      status = pending;
      space_id = i.space_id;
      space_repository_id = i.space_repository_id;
      depends_on_job_id = head? dependencies;
      payload_json = payload_json;
      deduplication_key = none;
      error = none;
      created_at = now r;
      started_at = none;
      finished_at = none;
    } in
    record bare { deduplication_key = some (create_job_deduplication_key r.env bare dependencies) }

unfoldable pub insert_with_dependencies : Job → List String → Database → Result Database
unfolding insert_job insert_dependencies
insert_with_dependencies j dependencies db = do
  inserted ← insert_job j db
  insert_dependencies j.id dependencies j.created_at inserted

-- What follows the transaction of `enqueue`. A transaction that throws leaves the tables alone.
finish_enqueue : Job → Result Database → Runner → Result Job × Runner
finish_enqueue j (err e) r = (err e, r)
finish_enqueue j (ok db) r =
    (ok j, request_tick (write_event j.id "status" "pending" (record r { db = db })))

enqueue_unless : Option Job → Job → List String → Runner → Result Job × Runner
unfolding finish_enqueue
enqueue_unless (some existing) j dependencies r = (ok existing, request_tick r)
enqueue_unless none j dependencies r =
    finish_enqueue j (insert_with_dependencies j dependencies r.db) r

enqueue_depending : Input → String → Result (List String) → Runner → Result Job × Runner
unfolding enqueue_unless
enqueue_depending i payload_json (err e) r = (err e, drawn r)
enqueue_depending i payload_json (ok dependencies) r =
    let j = new_job (create_id "job" r) i dependencies payload_json r in
    let key = create_job_deduplication_key r.env j dependencies in
    enqueue_unless (find_active_duplicate key r.db) j dependencies (drawn r)

-- `enqueue` behind its second line: `payload_json` is the canonical text of the payload.
unfoldable pub enqueue_canonical : Input → String → Runner → Result Job × Runner
unfolding enqueue_depending
enqueue_canonical i payload_json r =
    enqueue_depending i payload_json (normalize_dependency_job_ids i) r

unfoldable pub enqueue : Input → Runner → Result Job × Runner
unfolding enqueue_canonical
enqueue i r = enqueue_canonical i (stable_json_stringify (obj i.payload)) r
