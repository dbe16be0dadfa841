-- ===== src/Spaces/Deletion/Closed/References.antt =====
-- The references of the tables, and what the deletion of a space is to leave of the rows.
use memo_repo.Prelude.{
  String, Bool, true, false, not, ◌&&◌, ◌||◌, some, List, [], ◌∷◌, inl, inr, ◌==◌, ◌≡◌, refl, sym,
  any, filter, In, In-filter, In-filter_intro, any-eq-true, any-eq-false, arith, Bool-cases, eq_iff,
  eq_refl,
}
use memo_repo.Jobs.Store.{Job, JobEvent, Dependency}
use memo_repo.ToolStats.{McpToolStat}
use memo_repo.Spaces.Store.{
  Tables, Space, SpaceRepository, SpaceSnapshot, RepoIndex, McpConnection, AgentChat, AgentTurn,
}
use memo_repo.Spaces.Deletion.Statements.{
  is_index_of, is_in_space, is_repository_of, is_job_of, is_event_of, is_dependency_of, is_turn_of,
  uses_session, has_space,
}

-- The references of the rows, as the foreign keys ask for.
pub record IsClosed (t : Tables) : Type 0 where
  pub repositories :
      (r : SpaceRepository) → In r t.space_repositories → has_space r.space_id t ≡ true
  pub snapshots : (s : SpaceSnapshot) → In s t.space_snapshots → has_space s.space_id t ≡ true
  pub indexes :
      (i : RepoIndex)
      → In i t.repo_indexes
      → any (λ (r : SpaceRepository). r.id == i.space_repository_id) t.space_repositories ≡ true
  pub events :
      (e : JobEvent) → In e t.job_events → any (λ (j : Job). j.id == e.job_id) t.jobs ≡ true
  pub dependencies :
      (d : Dependency)
      → In d t.job_dependencies
      → (any (λ (j : Job). j.id == d.job_id) t.jobs ≡ true)
        × (any (λ (j : Job). j.id == d.dependency_job_id) t.jobs ≡ true)
  pub connections : (c : McpConnection) → In c t.mcp_connections → has_space c.space_id t ≡ true
  pub stats : (s : McpToolStat) → In s t.mcp_tool_stats → has_space s.space_id t ≡ true
  pub chats : (c : AgentChat) → In c t.agent_chats → has_space c.space_id t ≡ true
  pub turns :
      (x : AgentTurn)
      → In x t.agent_turns
      → any (λ (c : AgentChat). c.id == x.chat_id) t.agent_chats ≡ true
  pub sessions :
      (c : AgentChat) (id : String)
      → In c t.agent_chats
      → c.account_session_id ≡ some id
      → In id t.agent_account_sessions

pub any-of_In :
    {A : Type 0} (p : A → Bool) (xs : List A) (x : A) → In x xs → p x ≡ true → any p xs ≡ true
any-of_In p [] x m h = elim m [ ]
any-of_In p (y ∷ ys) x (inl e) h = rw (sym e, h) refl
any-of_In p (y ∷ ys) x (inr m) h = rw (any-of_In p ys x m h) (ground arith)

not-eq-true : (b : Bool) → not b ≡ true → b ≡ false
not-eq-true true h = cc
not-eq-true false h = refl

-- A row that is referred to stays where the one that refers to it does.
target-kept :
    {A : Type 0} (p gone : A → Bool) (xs : List A)
    → any p xs ≡ true
    → any (λ x. p x && gone x) xs ≡ false
    → any p (filter (λ x. not (gone x)) xs) ≡ true
target-kept p gone xs h k =
    let (x, m, e) = any-eq-true p xs h in
    let stays : (p x && gone x) ≡ false = any-eq-false (λ x. p x && gone x) xs x k m in
    any-of_In p (filter (λ x. not (gone x)) xs) x
      (In-filter_intro (λ x. not (gone x)) xs x m (ground arith)) e

space-kept :
    (t : Tables) (space other : String)
    → has_space other t ≡ true
    → (other == space) ≡ false
    → any (λ (s : Space). s.id == other) (filter (λ (s : Space). not (s.id == space)) t.spaces)
      ≡ true
space-kept t space other h k =
    let (s, m, e) = any-eq-true (λ (s : Space). s.id == other) t.spaces h in
    let stays : not (s.id == space) ≡ true = rw ((eq_iff s.id other).0 e, k) refl in
    any-of_In (λ (s : Space). s.id == other) (filter (λ (s : Space). not (s.id == space)) t.spaces)
      s (In-filter_intro (λ (s : Space). not (s.id == space)) t.spaces s m stays) e

kept :
    {A : Type 0} (gone : A → Bool) (xs : List A) (x : A)
    → In x (filter (λ y. not (gone y)) xs)
    → In x xs × (gone x ≡ false)
kept gone xs x m = let (k, h) = In-filter (λ y. not (gone y)) xs x m in (k, not-eq-true (gone x) h)

or-eq-false : (a b : Bool) → (a || b) ≡ false → (a ≡ false) × (b ≡ false)
or-eq-false true b h = cc
or-eq-false false b h = (refl, h)

-- What the transaction is to leave: the rows that neither are the space's nor refer to one that is.
unfoldable pub rows_left : String → Tables → Tables
rows_left space t =
    let chats = filter (λ (c : AgentChat). not (c.space_id == space)) t.agent_chats in
    record t {
      job_events = filter (λ e. not (is_event_of t space e)) t.job_events;
      job_dependencies = filter (λ d. not (is_dependency_of t space d)) t.job_dependencies;
      jobs = filter (λ j. not (is_job_of t space j)) t.jobs;
      mcp_tool_stats = filter (λ (s : McpToolStat). not (s.space_id == space)) t.mcp_tool_stats;
      mcp_connections = filter (λ (c : McpConnection). not (c.space_id == space)) t.mcp_connections;
      repo_indexes = filter (λ i. not (is_index_of t space i)) t.repo_indexes;
      space_snapshots = filter (λ (s : SpaceSnapshot). not (s.space_id == space)) t.space_snapshots;
      space_repositories = filter (λ r. not (is_in_space space r)) t.space_repositories;
      spaces = filter (λ (s : Space). not (s.id == space)) t.spaces;
      agent_chats = chats;
      agent_turns = filter (λ x. not (is_turn_of t space x)) t.agent_turns;
      agent_account_sessions = filter (λ id. any (uses_session id) chats) t.agent_account_sessions;
    }

pub rows_left-IsClosed : (space : String) (t : Tables) → IsClosed t → IsClosed (rows_left space t)
unfolding rows_left
rows_left-IsClosed space t c = record {
  repositories = λ r m.
      let (k, h) = kept (is_in_space space) t.space_repositories r m in
      space-kept t space r.space_id (c.repositories r k) h;
  snapshots = λ s m.
      let (k, h) = kept (λ (s : SpaceSnapshot). s.space_id == space) t.space_snapshots s m in
      space-kept t space s.space_id (c.snapshots s k) h;
  indexes = λ i m.
      let (k, h) =
        kept (λ (i : RepoIndex). is_repository_of t space i.space_repository_id) t.repo_indexes i
          m in
      target-kept (λ (r : SpaceRepository). r.id == i.space_repository_id) (is_in_space space)
        t.space_repositories (c.indexes i k) h;
  events = λ e m.
      let (k, h) = kept (is_event_of t space) t.job_events e m in
      target-kept (λ (j : Job). j.id == e.job_id) (is_job_of t space) t.jobs (c.events e k) h;
  dependencies = λ d m.
      let (k, h) = kept (is_dependency_of t space) t.job_dependencies d m in
      let (a, b) = c.dependencies d k in
      let (x, y) =
        or-eq-false (any (λ (j : Job). j.id == d.job_id && is_job_of t space j) t.jobs)
          (any (λ (j : Job). j.id == d.dependency_job_id && is_job_of t space j) t.jobs) h in
      (
        target-kept (λ (j : Job). j.id == d.job_id) (is_job_of t space) t.jobs a x,
        target-kept (λ (j : Job). j.id == d.dependency_job_id) (is_job_of t space) t.jobs b y,
      );
  connections = λ x m.
      let (k, h) = kept (λ (x : McpConnection). x.space_id == space) t.mcp_connections x m in
      space-kept t space x.space_id (c.connections x k) h;
  stats = λ x m.
      let (k, h) = kept (λ (x : McpToolStat). x.space_id == space) t.mcp_tool_stats x m in
      space-kept t space x.space_id (c.stats x k) h;
  chats = λ x m.
      let (k, h) = kept (λ (x : AgentChat). x.space_id == space) t.agent_chats x m in
      space-kept t space x.space_id (c.chats x k) h;
  turns = λ x m.
      let (k, h) = kept (is_turn_of t space) t.agent_turns x m in
      target-kept (λ (y : AgentChat). y.id == x.chat_id) (λ (y : AgentChat). y.space_id == space)
        t.agent_chats (c.turns x k) h;
  sessions = λ x id m e.
      let (k, h) = kept (λ (x : AgentChat). x.space_id == space) t.agent_chats x m in
      let chats = filter (λ (y : AgentChat). not (y.space_id == space)) t.agent_chats in
      let used : any (uses_session id) chats ≡ true =
        any-of_In (uses_session id) chats x m (rw e (eq_refl id)) in
      In-filter_intro (λ id. any (uses_session id) chats) t.agent_account_sessions id
        (c.sessions x id k e) used;
}

pub none-left :
    {A : Type 0} (gone : A → Bool) (xs : List A) → any gone (filter (λ x. not (gone x)) xs) ≡ false
none-left gone xs = elim (Bool-cases (any gone (filter (λ x. not (gone x)) xs))) [
  | inl e ↦
      let (x, m, h) = any-eq-true gone (filter (λ x. not (gone x)) xs) e in
      let (k, away) = kept gone xs x m in absurd cc
  | inr e ↦ e
]
