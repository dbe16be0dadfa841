-- ===== src/Spaces/Creation/Tests.antt =====
-- The third space of a name.
use Prim.Native.String
use memo_repo.Prelude.{
  ℕ, zero, suc, String, true, false, some, [], ◌∷◌, ◌++◌, ◌≡◌, ◌<◌, refl, inl, inr, arith,
}
use memo_repo.Text.{trim_end_dashes, trim_start_dashes, dash_runs}
use memo_repo.Domain.Slug.{slugify, trim, trim_end, trim_start, drop_quotes}
use memo_repo.Spaces.Store.{Tables, Space}
use memo_repo.Spaces.Repositories.{update_spaces}
use memo_repo.Spaces.Creation.{
  Places, candidate, is_taken, create_space, new_space, decimal, digits, next_digits, rendered,
  rename_space, being_deleted,
}
use memo_repo.Spaces.Creation.First.{create_space-first}

abbrev places : Places
places = record {
  to_lower_case = λ s. s;
  short_hash = λ id. id;
  join = λ name. String.◌++◌ "/home/spaces/" name;
  ensure_inside = λ path. some path;
}

abbrev of_slug : String → String → Space
of_slug id slug = new_space id 1 "my space" slug "/home/spaces/x"

abbrev tables : Tables
tables = record {
  spaces = of_slug "a" "my-space" ∷ of_slug "b" "my-space-2" ∷ [];
  github_repositories = [];
  space_repositories = [];
  space_snapshots = [];
  repo_indexes = [];
  jobs = [];
  job_dependencies = [];
  job_events = [];
  mcp_connections = [];
  mcp_tool_stats = [];
  agent_chats = [];
  agent_turns = [];
  agent_account_sessions = [];
}

test_decimal : decimal 109 ≡ "109"
unfolding digits next_digits rendered
test_decimal = refl

test_rename :
    rename_space false "b" 9 " new " tables
    ≡ inr (record tables {
      spaces =
          of_slug "a" "my-space"
          ∷ record (of_slug "b" "my-space-2") { name = "new"; updated_at = 9 }
          ∷ [];
    })
unfolding rename_space update_spaces trim trim_end trim_start
test_rename = refl

test_rename_deleting : rename_space true "b" 9 "new" tables ≡ inl being_deleted
unfolding rename_space
test_rename_deleting = refl

below-two :
    (j : ℕ)
    → j < 2
    → is_taken tables (candidate (slugify places.to_lower_case "my space!") j) ≡ true
unfolding slugify digits next_digits rendered trim_end_dashes trim_start_dashes dash_runs
    drop_quotes trim trim_end trim_start
below-two zero h = refl
below-two (suc zero) h = refl
below-two (suc (suc j)) h = absurd (omega arith)

create_space-first_example :
    create_space places "c" 5 6 "my space!" tables
    ≡ inr (record tables {
      spaces =
          tables.spaces
          ++ (new_space "c" 5 "my space!" "my-space-3" "/home/spaces/my-space-3__c" ∷ []);
    })
unfolding slugify digits next_digits rendered trim_end_dashes trim_start_dashes dash_runs
    drop_quotes trim trim_end trim_start
create_space-first_example =
    create_space-first places "c" 5 6 "my space!" "/home/spaces/my-space-3__c" tables 2 refl
      (omega arith) refl below-two refl
