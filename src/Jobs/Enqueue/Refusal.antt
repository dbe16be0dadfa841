-- ===== src/Jobs/Enqueue/Refusal.antt =====
-- What an `enqueue` of jobRunner.ts that throws leaves behind.
use memo_repo.Prelude.{String, ◌≡◌, refl, Option, none, some, List}
use memo_repo.Jobs.Store.{Job, Database}
use memo_repo.Jobs.Runner.{Runner, Result, Failure, ok, err}
use memo_repo.Jobs.Enqueue.{
  drawn, Input, enqueue, enqueue_canonical, enqueue_depending, enqueue_unless, finish_enqueue,
}

-- The tables, and what was sent out, are as they were.
IsUntouched : Runner → Runner → Type 0
IsUntouched r s = (s.db ≡ r.db) × (s.emitted ≡ r.emitted)

finish_enqueue-refused :
    (j : Job) (m : Result Database) (r : Runner) (e : Failure)
    → (finish_enqueue j m r).0 ≡ err e
    → IsUntouched r (finish_enqueue j m r).1
unfolding finish_enqueue IsUntouched
finish_enqueue-refused j (err f) r e h = (refl, refl)
finish_enqueue-refused j (ok db) r e h = cc

enqueue_unless-refused :
    (o : Option Job) (j : Job) (ds : List String) (r : Runner) (e : Failure)
    → (enqueue_unless o j ds r).0 ≡ err e
    → IsUntouched r (enqueue_unless o j ds r).1
unfolding enqueue_unless
enqueue_unless-refused (some x) j ds r e h = cc
enqueue_unless-refused none j ds r e h = finish_enqueue-refused j _ r e h

enqueue_depending-refused :
    (i : Input) (text : String) (m : Result (List String)) (r : Runner) (e : Failure)
    → (enqueue_depending i text m r).0 ≡ err e
    → IsUntouched r (enqueue_depending i text m r).1
unfolding enqueue_depending IsUntouched
enqueue_depending-refused i text (err f) r e h = (refl, refl)
enqueue_depending-refused i text (ok ds) r e h =
    unfold IsUntouched in enqueue_unless-refused _ _ ds (drawn r) e h

pub enqueue_canonical-refused :
    (i : Input) (text : String) (r : Runner) (e : Failure)
    → (enqueue_canonical i text r).0 ≡ err e
    → ((enqueue_canonical i text r).1.db ≡ r.db)
      × ((enqueue_canonical i text r).1.emitted ≡ r.emitted)
unfolding enqueue_canonical IsUntouched
enqueue_canonical-refused i text r e h = enqueue_depending-refused i text _ r e h

-- An enqueue that throws, for a bad dependency or since the database refuses a row, has changed no
-- table and sent out no event.
pub enqueue-refused :
    (i : Input) (r : Runner) (e : Failure)
    → (enqueue i r).0 ≡ err e
    → ((enqueue i r).1.db ≡ r.db) × ((enqueue i r).1.emitted ≡ r.emitted)
unfolding enqueue enqueue_canonical IsUntouched
enqueue-refused i r e h = enqueue_depending-refused i _ _ r e h
