-- ===== src/Batches/Tally.antt =====
-- The counters of a preparation.
use labforge.Base.{
  Option, none, some, ℕ, suc, ◌+◌, ◌≡◌, refl, ap, ◌∙◌, String, List, [], ◌∷◌, length, filter, ltb,
  arith,
}
use labforge.Exec.{Result, ok, pure, gets, ◌>>=◌}
use labforge.Exec.Laws.{attempt-bind, bind-ok}
use labforge.World.{World, Env, date_now}
use labforge.Store.{now, ask}
use labforge.Web.{Web, Reply, refuse, answer}
use labforge.Redeem.Guards.{ticked}
use labforge.Batches.{
  Seat, SeatOutcome, SeatCounts, count_outcome, or_failed, prepare_seat, work, BatchPrepared,
  prepare_seats, prepare_batch, prepare_due, concurrency_of, seats_of,
}

abbrev pub sum : SeatCounts → ℕ
sum c = c.prepared + c.resumed + c.skipped + c.failed

count_outcome-sum : (p : SeatOutcome) (c : SeatCounts) → sum (count_outcome p c) ≡ sum c + 1
count_outcome-sum SeatOutcome.prepared c = omega arith
count_outcome-sum SeatOutcome.resumed c = omega arith
count_outcome-sum SeatOutcome.skipped c = omega arith
count_outcome-sum SeatOutcome.failed c = omega arith

-- Counters that were returned, and add up.
pub record Counted (n : ℕ) (r : Result SeatCounts) : Type 0 where
  pub counts : SeatCounts
  pub returned : r ≡ ok counts
  pub added : sum counts ≡ n

-- Counters after a step that counts one seat more.
Counted-step :
    (p : SeatOutcome) (c : SeatCounts) (n : ℕ) (r : Result SeatCounts)
    → Counted (sum (count_outcome p c) + n) r
    → Counted (sum c + suc n) r
Counted-step p c n r h = record {
  counts = h.counts;
  returned = h.returned;
  added = h.added ∙ counted_on (count_outcome-sum p c);
}
  where
    counted_on : sum (count_outcome p c) ≡ sum c + 1 → sum (count_outcome p c) + n ≡ sum c + suc n
    counted_on e = omega arith

-- A worker does not throw, and counts every seat once.
pub work-Counted :
    (env : Env) (ss : List Seat) (c : SeatCounts) (w : World)
    → Counted (sum c + length ss) (work env ss c w).0
unfolding work pure
work-Counted env [] c w = record { counts = c; returned = refl; added = omega arith }
work-Counted env (s ∷ ss) c w =
    let turn = prepare_seat env s.launch s.included.template s.included.instance in
    rw (attempt-bind turn (λ r. work env ss (count_outcome (or_failed r) c)) w) (
      Counted-step (or_failed (turn w).0) c (length ss) _
        (work-Counted env ss (count_outcome (or_failed (turn w).0) c) (turn w).1))

-- A reply whose counts add up to its total.
pub record Tallied (n : ℕ) (r : Result (Reply BatchPrepared)) : Type 0 where
  pub reply : BatchPrepared
  pub answered : r ≡ ok (answer reply)
  pub total : reply.total ≡ n
  pub added : sum reply.counts ≡ n

-- What the seats of a batch are answered with.
abbrev pub Answers : List Seat → Result (Reply BatchPrepared) → Type 0
Answers [] r = r ≡ ok (refuse 404 "batch_not_found")
Answers (s ∷ ss) r = Tallied (length (s ∷ ss)) r

abbrev pub empty_counts : SeatCounts
empty_counts = record { prepared = 0; resumed = 0; skipped = 0; failed = 0 }

prepare_seats-Answers :
    (env : Env) (ss : List Seat) (w : World) → Answers ss (prepare_seats env ss w).0
unfolding prepare_seats pure
prepare_seats-Answers env [] w = refl
prepare_seats-Answers env (s ∷ ss) w =
    let h = work-Counted env (s ∷ ss) empty_counts w in
    record {
      reply = record { total = length (s ∷ ss); counts = h.counts };
      answered = ap (λ p. p.0) (bind-ok (work env (s ∷ ss) empty_counts) _ w h.counts h.returned);
      total = refl;
      added = h.added ∙ omega arith;
    }

-- The seats that have not expired at the time of the call.
abbrev pub due : Env → Web → (tenant_id batch_id : String) → World → List Seat
due env web tenant_id batch_id w =
    filter (λ (s : Seat). ltb (env.num_answer w.calls date_now) s.launch.expires_at)
      (seats_of web tenant_id batch_id (ticked w))

-- What a preparation is answered with, in the state that it leaves.
abbrev pub Prepares : Option ℕ → List Seat → World → Result (Reply BatchPrepared) → World → Type 0
Prepares none ss w r t = (r ≡ ok (refuse 400 "invalid_body")) × (t ≡ w)
Prepares (some concurrency) ss w r t = Answers ss r

prepare_due-Prepares :
    (env : Env) (web : Web) (tenant_id batch_id : String) (concurrency : Option ℕ) (w : World)
    → Prepares concurrency
        (due env web tenant_id batch_id w)
        w
        (prepare_due env web tenant_id batch_id concurrency w).0
        (prepare_due env web tenant_id batch_id concurrency w).1
unfolding prepare_due now ask gets ◌>>=◌ pure
prepare_due-Prepares env web tenant_id batch_id none w = (refl, refl)
prepare_due-Prepares env web tenant_id batch_id (some n) w =
    prepare_seats-Answers env (due env web tenant_id batch_id w) (ticked w)

-- A preparation whose body is invalid, or has a concurrency that is not between 1 and 20, is answered with 400
-- and changes nothing. Any other is answered with 404 when no seat of the batch is due. Otherwise it does not
-- throw: the counts of prepared, resumed, skipped and failed seats in its reply add up to the total, and the
-- total is the number of the seats that are due.
pub prepare_batch-Answers :
    (env : Env) (web : Web) (tenant_id batch_id : String) (body : Option (Option ℕ)) (w : World)
    → Prepares
        (concurrency_of body)
        (due env web tenant_id batch_id w)
        w
        (prepare_batch env web tenant_id batch_id body w).0
        (prepare_batch env web tenant_id batch_id body w).1
unfolding prepare_batch
prepare_batch-Answers env web tenant_id batch_id body w =
    prepare_due-Prepares env web tenant_id batch_id (concurrency_of body) w
