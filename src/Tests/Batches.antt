-- ===== src/Tests/Batches.antt =====
-- A batch of one seat on the small fleet.
use labforge.Base.{◌≡◌, refl, none, some, [], ◌∷◌, ◌==◌, if◌then◌else◌, map}
use labforge.Web.{Web}
use labforge.Batches.{
  in_batch, seats_of, prepare_batch, concurrency_of, terminate_batch, purge_batch,
}
use labforge.Batches.Tally.{Prepares, due, prepare_batch-Answers}
use labforge.Batches.Closed.{Terminates, terminate_batch-Closes}
use labforge.Batches.Purged.{Removes, purge_batch-Removes}
use labforge.Tests.{an_env}
use labforge.Tests.Sessions.{seats, a_web}

-- Every launch is one of the batch "b1".
abbrev batch_web : Web
batch_web = record a_web {
  text_field = λ json field. if field == "batchId" then some "b1" else none;
}

prepare_batch-Answers_example :
    Prepares
      (concurrency_of (some none))
      (due an_env batch_web "acme" "b1" seats)
      seats
      (prepare_batch an_env batch_web "acme" "b1" (some none) seats).0
      (prepare_batch an_env batch_web "acme" "b1" (some none) seats).1
prepare_batch-Answers_example = prepare_batch-Answers an_env batch_web "acme" "b1" (some none) seats

terminate_batch-Closes_example :
    Terminates an_env batch_web "acme" "b1"
      (some none)
      seats
      (terminate_batch an_env batch_web "acme" "b1" (some none) seats).0
      (terminate_batch an_env batch_web "acme" "b1" (some none) seats).1
terminate_batch-Closes_example =
    terminate_batch-Closes an_env batch_web "acme" "b1" (some none) seats

purge_batch-Removes_example :
    Removes
      (in_batch batch_web "acme" "b1")
      (seats_of batch_web "acme" "b1" seats)
      (purge_batch an_env batch_web "acme" "b1" seats).0
      (purge_batch an_env batch_web "acme" "b1" seats).1
purge_batch-Removes_example = purge_batch-Removes an_env batch_web "acme" "b1" seats

one_seat : map (λ s. s.launch.id) (seats_of batch_web "acme" "b1" seats) ≡ "l1" ∷ []
unfolding seats_of in_batch
one_seat = refl
