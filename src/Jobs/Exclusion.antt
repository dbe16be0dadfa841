-- ===== src/Jobs/Exclusion.antt =====
-- Which jobs must not run at the same time (`isBlocked` of jobRunner.ts, stated without it).
use memo_repo.Prelude.{
  ◌∙◌, String, Bool, true, false, ◌&&◌, ◌||◌, ◌≡◌, ◌≢◌, refl, sym, ap, inl, inr, Option, none, some,
  List, arith, eq_iff, ◌==◌, is_value, Bool-cases, In,
}
use memo_repo.EventBus.{truthy}
use memo_repo.Jobs.Store.{Job, is_running, update_jobs}
use memo_repo.Jobs.Store.Rows.{In-update_jobs}

-- Both are given, and the same.
abbrev pub shared : Option String → Option String → Bool
shared none t = false
shared (some s) t = is_value t s

abbrev pub is_absent : Option String → Bool
is_absent none = true
is_absent (some _) = false

-- Two jobs conflict if they work on one repository, or in one space where one of them is a job of
-- the whole space.
unfoldable pub conflicts : Job → Job → Bool
conflicts a b =
    shared (truthy a.space_repository_id) b.space_repository_id
    || (shared (truthy a.space_id) b.space_id
        && (is_absent (truthy a.space_repository_id) || is_absent b.space_repository_id))

abbrev pub IsNamed : Job → Type 0
IsNamed j = j.space_repository_id ≢ some ""

shared_symm : (s t : Option String) → shared (truthy s) t ≡ shared (truthy t) s
shared_symm none none = refl
shared_symm none (some t) = ground (arith, eq_iff t "")
shared_symm (some s) none = ground (arith, eq_iff s "")
shared_symm (some s) (some t) = ground (arith, eq_iff s "", eq_iff t "", eq_iff s t, eq_iff t s)

truthy_of_ne : (s : Option String) → s ≢ some "" → truthy s ≡ s
truthy_of_ne none h = refl
truthy_of_ne (some s) h = elim (Bool-cases (s == "")) [
  | inl e ↦ absurd (h (ap some ((eq_iff s "").0 e)))
  | inr e ↦ rw e
]

or_comm : (a b : Bool) → (a || b) ≡ (b || a)
or_comm true true = refl
or_comm true false = refl
or_comm false true = refl
or_comm false false = refl

pub conflicts_symm : (a b : Job) → IsNamed a → IsNamed b → conflicts a b ≡ conflicts b a
unfolding conflicts
conflicts_symm a b h k =
    let p = shared_symm a.space_repository_id b.space_repository_id in
    let q = shared_symm a.space_id b.space_id in
    cc (
      p,
      q,
      truthy_of_ne a.space_repository_id h,
      truthy_of_ne b.space_repository_id k,
      or_comm (is_absent a.space_repository_id) (is_absent b.space_repository_id),
    )

-- No two running jobs conflict.
abbrev pub IsExclusive : List Job → Type 0
IsExclusive js =
    (a b : Job)
    → In a js
    → In b js
    → is_running a.status ≡ true
    → is_running b.status ≡ true
    → a.id ≢ b.id
    → conflicts a b ≡ false

-- A change that starts no job and moves none to another repository or space.
pub record IsCalm (f : Job → Job) : Type 0 where
  pub id : (x : Job) → (f x).id ≡ x.id
  pub space : (x : Job) → (f x).space_id ≡ x.space_id
  pub repository : (x : Job) → (f x).space_repository_id ≡ x.space_repository_id
  pub stays : (x : Job) → is_running (f x).status ≡ true → is_running x.status ≡ true

pub conflicts-eq :
    (a b c d : Job)
    → a.space_id ≡ c.space_id
    → a.space_repository_id ≡ c.space_repository_id
    → b.space_id ≡ d.space_id
    → b.space_repository_id ≡ d.space_repository_id
    → conflicts a b ≡ conflicts c d
unfolding conflicts
conflicts-eq a b c d p q r s = rw (p, q, r, s)

pub record Origin (js : List Job) (a : Job) : Type 0 where
  pub old : Job
  pub member : In old js
  pub id : a.id ≡ old.id
  pub space : a.space_id ≡ old.space_id
  pub repository : a.space_repository_id ≡ old.space_repository_id
  pub stays : is_running a.status ≡ true → is_running old.status ≡ true

pub origin :
    (f : Job → Job)
    → IsCalm f
    → (id : String) (js : List Job) (a : Job) → In a (update_jobs id f js)
    → Origin js a
origin f c id js a m =
    let (x, i, h) = In-update_jobs id f js a m in
    elim h [
      | inl (_, e) ↦ record {
        old = x;
        member = i;
        id = ap (λ (y : Job). y.id) e ∙ c.id x;
        space = ap (λ (y : Job). y.space_id) e ∙ c.space x;
        repository = ap (λ (y : Job). y.space_repository_id) e ∙ c.repository x;
        stays = λ s. c.stays x (ap (λ (y : Job). is_running y.status) (sym e) ∙ s);
      }
      | inr (_, e) ↦ record {
        old = x;
        member = i;
        id = ap (λ (y : Job). y.id) e;
        space = ap (λ (y : Job). y.space_id) e;
        repository = ap (λ (y : Job). y.space_repository_id) e;
        stays = λ s. ap (λ (y : Job). is_running y.status) (sym e) ∙ s;
      }
    ]

pub update_jobs-IsExclusive :
    (f : Job → Job)
    → IsCalm f
    → (id : String) (js : List Job) → IsExclusive js
    → IsExclusive (update_jobs id f js)
update_jobs-IsExclusive f c id js h a b ma mb ra rb ne =
    let p = origin f c id js a ma in
    let q = origin f c id js b mb in
    conflicts-eq a b p.old q.old p.space p.repository q.space q.repository
    ∙ h p.old q.old p.member q.member (p.stays ra) (q.stays rb) (λ e. ne (p.id ∙ e ∙ sym q.id))
