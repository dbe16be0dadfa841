-- ===== src/Coverage/Project/Sums.antt =====
-- What the totals of a snapshot add up (snapshotIndexCoverage.ts).
use memo_repo.Prelude.{ℕ, ◌+◌, ◌≡◌, refl, ◌∙◌, ap, List, [], ◌∷◌, ◌++◌, arith}
use memo_repo.Coverage.Paths.{Locale}
use memo_repo.Coverage.Rows.{Row}
use memo_repo.Coverage.Rows.Totals.{
  total, IsNumber, aggregate-totals, sum_coverage-number, source_files-IsNumber,
  source_bytes-IsNumber, excluded-IsNumber, skipped-IsNumber, candidate-IsNumber,
  candidate_bytes-IsNumber,
}
use memo_repo.Coverage.Inventory.{Repository, Quality}
use memo_repo.Coverage.Project.{
  ProjectCoverage, project_coverage, cover_all, all_extensions, coverage_of,
}

total-append : (f : Row → ℕ) (rs qs : List Row) → total f (rs ++ qs) ≡ total f rs + total f qs
unfolding total
total-append f [] qs = omega arith
total-append f (r ∷ rs) qs = omega (arith, total-append f rs qs)

project-number :
    (f : Row → ℕ)
    → IsNumber f
    → (w : Locale) (r : Repository) (q : Quality)
    → f (project_coverage w r q).totals ≡ total f (project_coverage w r q).extensions
unfolding project_coverage
project-number f n w r q = sum_coverage-number f n _

projects-number :
    (f : Row → ℕ)
    → IsNumber f
    → (w : Locale) (rs : List Repository) (q : Quality)
    → total f (all_extensions (cover_all w rs q))
      ≡ total (λ (p : ProjectCoverage). f p.totals) (cover_all w rs q)
unfolding total cover_all all_extensions
projects-number f n w [] q = refl
projects-number f n w (r ∷ rs) q = omega (
  arith,
  total-append f (project_coverage w r q).extensions (all_extensions (cover_all w rs q)),
  project-number f n w r q,
  projects-number f n w rs q,
)

snapshot-number :
    (f : Row → ℕ)
    → IsNumber f
    → (w : Locale) (rs : List Repository) (q : Quality)
    → f (coverage_of w rs q).totals
      ≡ total (λ (p : ProjectCoverage). f p.totals) (coverage_of w rs q).projects
unfolding coverage_of
snapshot-number f n w rs q =
    ap f (aggregate-totals w (all_extensions (cover_all w rs q)))
    ∙ sum_coverage-number f n (all_extensions (cover_all w rs q))
    ∙ projects-number f n w rs q

-- Each count of a snapshot's totals is the sum of that count over the totals of its projects.
pub snapshot-totals :
    (w : Locale) (rs : List Repository) (q : Quality)
    → let s = coverage_of w rs q in
      (s.totals.source_files ≡ total (λ (p : ProjectCoverage). p.totals.source_files) s.projects)
      × (s.totals.source_bytes ≡ total (λ (p : ProjectCoverage). p.totals.source_bytes) s.projects)
      × (s.totals.excluded_files
          ≡ total (λ (p : ProjectCoverage). p.totals.excluded_files) s.projects)
      × (s.totals.skipped_files
          ≡ total (λ (p : ProjectCoverage). p.totals.skipped_files) s.projects)
      × (s.totals.candidate_files
          ≡ total (λ (p : ProjectCoverage). p.totals.candidate_files) s.projects)
      × (s.totals.candidate_bytes
          ≡ total (λ (p : ProjectCoverage). p.totals.candidate_bytes) s.projects)
snapshot-totals w rs q = (
  snapshot-number _ source_files-IsNumber w rs q,
  snapshot-number _ source_bytes-IsNumber w rs q,
  snapshot-number _ excluded-IsNumber w rs q,
  snapshot-number _ skipped-IsNumber w rs q,
  snapshot-number _ candidate-IsNumber w rs q,
  snapshot-number _ candidate_bytes-IsNumber w rs q,
)
