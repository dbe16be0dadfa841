-- ===== src/Spaces/Repositories/Live.antt =====
-- A repository stands once in a space, and one that was removed is in no snapshot.
use memo_repo.Prelude.{
  and-eq-true, ℕ, String, Bool, true, false, not, ◌&&◌, ◌||◌, none, List, [], ◌∷◌, ◌++◌, ◌⊎◌, inl,
  inr, ◌==◌, ◌≡◌, ◌≤◌, refl, sym, if◌then◌else◌, any, find?, count_where, arith, Bool-cases, eq_iff,
  every, elim-holds, if-holds, if-cases, ◌+◌, is_value,
}
use memo_repo.Jobs.Store.{Job, is_active}
use memo_repo.Spaces.Store.{Tables, SpaceRepository, GithubRepository}
use memo_repo.Spaces.Repositories.{
  Files, Refused, find_space, find_repository, update_repositories, is_live, is_live_in,
  new_repository, add_repository_to_space, removed, remove_rows, soft_remove_space_repository,
  cleaned, cleanup_space_repository_files, mark_space_stale, local_path_for,
}

-- How often a repository stands in a space without having been removed.
abbrev pub live_count : String → String → List SpaceRepository → ℕ
live_count space github rs = count_where (is_live_in space github) rs

-- A removed row is not in the snapshot.
abbrev pub is_out : SpaceRepository → Bool
is_out r = is_live r || not r.snapshot_included

pub record IsTidy (t : Tables) : Type 0 where
  pub once : (space github : String) → live_count space github t.space_repositories ≤ 1
  pub out : every is_out t.space_repositories ≡ true

live_count-end :
    (space github : String) (rs : List SpaceRepository) (r : SpaceRepository)
    → live_count space github (rs ++ r ∷ [])
      ≡ live_count space github rs + (if is_live_in space github r then 1 else 0)
live_count-end space github [] r = omega arith
live_count-end space github (x ∷ rs) r = rw (live_count-end space github rs r) (omega arith)

live_count-none :
    (space github : String) (rs : List SpaceRepository)
    → any (is_live_in space github) rs ≡ false
    → live_count space github rs ≡ 0
live_count-none space github [] h = refl
live_count-none space github (r ∷ rs) h = ground (arith, live_count-none space github rs)

every-end :
    (rs : List SpaceRepository) (r : SpaceRepository)
    → every is_out rs ≡ true
    → is_out r ≡ true
    → every is_out (rs ++ r ∷ []) ≡ true
every-end [] r h k = rw k refl
every-end (x ∷ rs) r h k = ground (arith, every-end rs r)

-- A change that makes no row live leaves at most as many.
live_count-update :
    (space github id : String) (change : SpaceRepository → SpaceRepository)
    (rs : List SpaceRepository)
    → ((r : SpaceRepository)
        → is_live_in space github (change r) ≡ true
        → is_live_in space github r ≡ true)
    → live_count space github (update_repositories id change rs) ≤ live_count space github rs
unfolding update_repositories
live_count-update space github id change [] h = omega arith
live_count-update space github id change (r ∷ rs) h =
    let rest = live_count-update space github id change rs h in
    elim (Bool-cases (r.id == id)) [
      | inl e ↦ rw e (elim (Bool-cases (is_live_in space github (change r))) [
        | inl a ↦ rw (a, h r a) (omega (arith, rest))
        | inr a ↦ rw a (omega (arith, rest))
      ])
      | inr e ↦ rw e (omega (arith, rest))
    ]

every-update :
    (id : String) (change : SpaceRepository → SpaceRepository) (rs : List SpaceRepository)
    → ((r : SpaceRepository) → is_out (change r) ≡ true)
    → every is_out rs ≡ true
    → every is_out (update_repositories id change rs) ≡ true
unfolding update_repositories
every-update id change [] h k = refl
every-update id change (r ∷ rs) h k = elim (Bool-cases (r.id == id)) [
  | inl e ↦ rw (e, h r) (every-update id change rs h (ground arith))
  | inr e ↦ rw e (ground (arith, every-update id change rs h))
]

abbrev pub TidyResult : Refused ⊎ Tables → Type 0
TidyResult (inl e) = Unit
TidyResult (inr u) = IsTidy u

pub stale-IsTidy :
    (space : String) (now : ℕ) (t : Tables) → IsTidy t → IsTidy (mark_space_stale space now t)
unfolding mark_space_stale
stale-IsTidy space now t o = record { once = o.once; out = o.out }

-- A new row is live, and the space had none that is for the same repository.
add_row-IsTidy :
    (id space github path : String) (now : ℕ) (t : Tables)
    → any (is_live_in space github) t.space_repositories ≡ false
    → IsTidy t
    → IsTidy (record t {
      space_repositories = t.space_repositories ++ new_repository id space github path now ∷ [];
    })
unfolding new_repository
add_row-IsTidy id space github path now t e o = record {
  once = λ s g. elim (Bool-cases (is_live_in s g (new_repository id space github path now))) [
    | inl a ↦
        let (x, y) = and-eq-true (space == s) (github == g && true) a in
        let (y2, _) = and-eq-true (github == g) true y in
        let same_space = (eq_iff space s).0 x in
        let same_github = (eq_iff github g).0 y2 in
        let none_live : live_count s g t.space_repositories ≡ 0 =
          rw (sym same_space, sym same_github)
            (live_count-none space github t.space_repositories e) in
        rw (live_count-end s g t.space_repositories (new_repository id space github path now), a)
          (omega arith)
    | inr a ↦
        let l = o.once s g in
        rw (live_count-end s g t.space_repositories (new_repository id space github path now), a)
          (omega arith)
  ];
  out = every-end t.space_repositories (new_repository id space github path now) o.out refl;
}

pub add-IsTidy :
    (f : Files) (id : String) (now : ℕ) (space github : String) (t : Tables)
    → IsTidy t
    → TidyResult (add_repository_to_space f id now space github t)
unfolding add_repository_to_space
add-IsTidy f id now space github t o = elim-holds TidyResult (find_space space t) tt (λ s.
    elim-holds TidyResult (find? (λ (g : GithubRepository). g.id == github) t.github_repositories)
      tt
      (λ g.
        if-cases TidyResult (any (is_live_in space github) t.space_repositories) (λ e. tt)
          (λ e.
            elim-holds TidyResult (f.assert_inside (local_path_for f s g id)) tt
              (λ path. stale-IsTidy space now _ (add_row-IsTidy id space github path now t e o)))))

pub update-IsTidy :
    (id : String) (change : SpaceRepository → SpaceRepository) (t : Tables)
    → ((space github : String) (r : SpaceRepository)
        → is_live_in space github (change r) ≡ true
        → is_live_in space github r ≡ true)
    → ((r : SpaceRepository) → is_out (change r) ≡ true)
    → IsTidy t
    → IsTidy (record t { space_repositories = update_repositories id change t.space_repositories })
update-IsTidy id change t live out o = record {
  once = λ s g.
      let l = live_count-update s g id change t.space_repositories (live s g) in
      let m = o.once s g in omega (arith, l, m);
  out = every-update id change t.space_repositories out o.out;
}

removed-IsTidy :
    (id : String) (now : ℕ) (t : Tables)
    → IsTidy t
    → IsTidy (record t {
      space_repositories = update_repositories id (removed now) t.space_repositories;
    })
removed-IsTidy id now t o =
    update-IsTidy id (removed now) t (λ space github r h. ground arith) (λ r. refl) o

pub remove-IsTidy :
    (id : String) (now : ℕ) (t : Tables)
    → IsTidy t
    → TidyResult (soft_remove_space_repository id now t)
unfolding soft_remove_space_repository remove_rows
remove-IsTidy id now t o = elim-holds TidyResult (find_repository id t) tt (λ r.
    elim-holds TidyResult (find_space r.space_id t) tt (λ s.
      let rows = removed-IsTidy r.id now t o in
      elim-holds IsTidy (if r.snapshot_included then s.active_snapshot_id else none)
        (stale-IsTidy r.space_id now _ rows)
        (λ snapshot. record { once = rows.once; out = rows.out })))

pub clean-IsTidy :
    (f : Files) (id : String) (now : ℕ) (t : Tables)
    → IsTidy t
    → TidyResult (cleanup_space_repository_files f id now t)
unfolding cleanup_space_repository_files
clean-IsTidy f id now t o = elim-holds TidyResult (find_repository id t) tt (λ r.
    if-holds TidyResult (is_live r) tt (
      if-holds TidyResult
        (any (λ (j : Job). is_value j.space_repository_id id && is_active j.status) t.jobs) tt
        (if-holds TidyResult (not (f.is_deletable r.local_path)) tt
          (update-IsTidy id (cleaned now) t (λ space github r h. h) (λ r. ground arith) o))))
