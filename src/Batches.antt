-- ===== src/Batches.antt =====
-- Operations on the seats of a batch: packages/control-plane/src/routes/batches.ts (revoke, terminate,
-- purge, prepare). A batch is the launches of a tenant whose JSON context names it. A preparation takes
-- its seats one after the other, which is the order of a concurrency of 1.
pub mod Updated
pub mod Seats
pub mod Tally
pub mod Closed
pub mod Purged
use labforge.Base.{
  ℕ, suc, String, Bool, true, false, Option, none, some, List, [], ◌∷◌, ◌==◌, ◌&&◌, ◌||◌, not,
  if◌then◌else◌, filter, length, map, ltb, leb, text_option_eq, or_else,
}
use labforge.Exec.{Result, ok, err, row_not_found, or_fail, pure, gets, lift, attempt, ◌>>=◌, ◌>>◌}
use labforge.Data.{Launch, Instance, Template}
use labforge.Data.Statuses.{is_counted, is_paused, is_reusable}
use labforge.World.{M, World, Env}
use labforge.Store.{now, update_launch}
use labforge.Web.{Web, Reply, refuse, answer}
use labforge.Nodes.Runtimes.{truthy}
use labforge.Orchestrator.Destroy.{destroy_instance}
use labforge.Orchestrator.Lifecycle.{resume_instance}
use labforge.Orchestrator.Acquire.{acquire_instance}
use labforge.Launches.{set_revoked}
use labforge.Launches.Prepare.{Included, include, acquire_input, instance_at, set_instance, sleeps}

-- `context: { path: ['batchId'], equals: batchId }`, of the tenant
unfoldable pub in_batch : Web → (tenant_id batch_id : String) → Launch → Bool
in_batch web tenant_id batch_id l =
    l.tenant_id == tenant_id && text_option_eq (web.text_field l.context "batchId") (some batch_id)

unfoldable pub update_where : (Launch → Bool) → (Launch → Launch) → List Launch → List Launch
update_where p f [] = []
update_where p f (l ∷ ls) = (if p l then f l else l) ∷ update_where p f ls

-- prisma.launch.updateMany, for changes that set no unique column; the result is the count.
unfoldable pub update_launches : (Launch → Bool) → (Launch → Launch) → M ℕ
unfolding update_where
update_launches p f w =
    (ok (length (filter p w.launches)), record w { launches = update_where p f w.launches })

abbrev pub is_null : {A : Type 0} → Option A → Bool
is_null none = true
is_null (some a) = false

-- DELETE /:batchId: the launches that were not redeemed.
unfoldable pub revoke_batch : Env → Web → (tenant_id batch_id : String) → M ℕ
revoke_batch env web tenant_id batch_id = do
  t ← now env
  update_launches (λ l. in_batch web tenant_id batch_id l && is_null l.redeemed_at) (set_revoked t)

-- A seat of the answer to `findMany`, with what it includes.
pub record Seat : Type 0 where
  pub launch : Launch
  pub included : Included

unfoldable pub seats_of : Web → (tenant_id batch_id : String) → World → List Seat
seats_of web tenant_id batch_id w =
    map (λ l. record { launch = l; included = include l w })
      (filter (in_batch web tenant_id batch_id) w.launches)

abbrev pub count_if : Bool → ℕ → ℕ
count_if true n = suc n
count_if false n = n

abbrev pub succeeded : Result (Unit {0}) → Bool
succeeded (ok u) = true
succeeded (err e) = false

-- A live instance is destroyed; the number of those that were is counted.
unfoldable pub end_seat : Env → Bool → Option Instance → M Bool
end_seat env delete_volumes none = pure false
end_seat env delete_volumes (some i) =
    if is_counted i.status
    then (do r ← attempt (destroy_instance env i.id delete_volumes); pure (succeeded r))
    else pure false

unfoldable pub end_seats : Env → Bool → List Seat → M ℕ
end_seats env delete_volumes [] = pure 0
end_seats env delete_volumes (s ∷ ss) = do
  b ← end_seat env delete_volumes s.included.instance
  n ← end_seats env delete_volumes ss
  pure (count_if b n)

pub record Terminated : Type 0 where
  pub terminated : ℕ
  pub revoked : ℕ

unfoldable pub close_seats : Env → (Launch → Bool) → ℕ → M (Reply Terminated)
close_seats env p n = do
  t ← now env
  m ← update_launches p (set_revoked t)
  pure (answer (record { terminated = n; revoked = m }))

unfoldable pub terminate_seats :
    Env → Web → (tenant_id batch_id : String) → Bool → List Seat → M (Reply Terminated)
terminate_seats env web tenant_id batch_id delete_volumes [] = pure (refuse 404 "batch_not_found")
terminate_seats env web tenant_id batch_id delete_volumes (s ∷ ss) = do
  n ← end_seats env delete_volumes (s ∷ ss)
  close_seats env (in_batch web tenant_id batch_id) n

-- POST /:batchId/terminate. The body is the option, or none where it is invalid; `destroyInstance` keeps the
-- volume where the option is absent.
unfoldable pub terminate_batch :
    Env → Web → (tenant_id batch_id : String) → (body : Option (Option Bool)) → M (Reply Terminated)
terminate_batch env web tenant_id batch_id none = pure (refuse 400 "invalid_body")
terminate_batch env web tenant_id batch_id (some delete_volumes) = do
  seats ← gets (seats_of web tenant_id batch_id)
  terminate_seats env web tenant_id batch_id (or_else delete_volumes false) seats

-- prisma.launch.deleteMany; the result is the count.
unfoldable pub delete_launches : (Launch → Bool) → M ℕ
delete_launches p w =
    (ok (length (filter p w.launches)), record w { launches = filter (λ l. not (p l)) w.launches })

pub record Purge : Type 0 where
  pub terminated : ℕ
  pub deleted : ℕ

unfoldable pub remove_seats : (Launch → Bool) → ℕ → M (Reply Purge)
remove_seats p n = do m ← delete_launches p; pure (answer (record { terminated = n; deleted = m }))

unfoldable pub purge_seats : Env → Web → (tenant_id batch_id : String) → List Seat → M (Reply Purge)
purge_seats env web tenant_id batch_id [] = pure (refuse 404 "batch_not_found")
purge_seats env web tenant_id batch_id (s ∷ ss) = do
  n ← end_seats env false (s ∷ ss)
  remove_seats (in_batch web tenant_id batch_id) n

-- DELETE /:batchId/purge; `destroyInstance` keeps the volumes, without an option.
unfoldable pub purge_batch : Env → Web → (tenant_id batch_id : String) → M (Reply Purge)
purge_batch env web tenant_id batch_id = do
  seats ← gets (seats_of web tenant_id batch_id)
  purge_seats env web tenant_id batch_id seats

-- What became of a seat.
pub data SeatOutcome : Type 0 where
  prepared resumed skipped failed : SeatOutcome

-- `['ready', 'idle', 'provisioning', 'pending'].includes(status)`
abbrev pub is_warm_seat : Instance → Bool
is_warm_seat i = is_reusable i.status && not (is_paused i.status)

unfoldable pub prepare_fresh : Env → Launch → Option Template → M SeatOutcome
prepare_fresh env l o = do
  t ← lift (or_fail row_not_found o)
  i ← acquire_instance env (acquire_input l t)
  update_launch l.id (set_instance i.id)
  pure prepared

unfoldable pub prepare_seat : Env → Launch → Option Template → Option Instance → M SeatOutcome
prepare_seat env l t none = prepare_fresh env l t
prepare_seat env l t (some i) =
    if is_warm_seat i
    then pure skipped
    else if sleeps i
    then (do resume_instance env i.id 0; pure resumed)
    else prepare_fresh env l t

abbrev pub or_failed : Result SeatOutcome → SeatOutcome
or_failed (ok p) = p
or_failed (err e) = failed

-- The four counters of the workers.
pub record SeatCounts : Type 0 where
  pub prepared : ℕ
  pub resumed : ℕ
  pub skipped : ℕ
  pub failed : ℕ

abbrev pub count_outcome : SeatOutcome → SeatCounts → SeatCounts
count_outcome SeatOutcome.prepared c = record c { prepared = suc c.prepared }
count_outcome SeatOutcome.resumed c = record c { resumed = suc c.resumed }
count_outcome SeatOutcome.skipped c = record c { skipped = suc c.skipped }
count_outcome SeatOutcome.failed c = record c { failed = suc c.failed }

unfoldable pub work : Env → List Seat → SeatCounts → M SeatCounts
work env [] c = pure c
work env (s ∷ ss) c =
    attempt (prepare_seat env s.launch s.included.template s.included.instance) >>= λ r.
    work env ss (count_outcome (or_failed r) c)

pub record BatchPrepared : Type 0 where
  pub total : ℕ
  pub counts : SeatCounts

unfoldable pub prepare_seats : Env → List Seat → M (Reply BatchPrepared)
prepare_seats env [] = pure (refuse 404 "batch_not_found")
prepare_seats env (s ∷ ss) = do
  c ← work env (s ∷ ss) (record { prepared = 0; resumed = 0; skipped = 0; failed = 0 })
  pure (answer (record { total = length (s ∷ ss); counts = c }))

-- The answer of `safeParse`: the concurrency is between 1 and 20, and 5 where it is absent. None is a body
-- that is no such object.
abbrev pub concurrency_of : Option (Option ℕ) → Option ℕ
concurrency_of none = none
concurrency_of (some none) = some 5
concurrency_of (some (some n)) = if leb 1 n && leb n 20 then some n else none

-- POST /:batchId/prepare: the seats that have not expired, one after the other for every concurrency.
unfoldable pub prepare_due :
    Env → Web → (tenant_id batch_id : String) → Option ℕ → M (Reply BatchPrepared)
prepare_due env web tenant_id batch_id none = pure (refuse 400 "invalid_body")
prepare_due env web tenant_id batch_id (some concurrency) = do
  t ← now env
  seats ← gets (seats_of web tenant_id batch_id)
  prepare_seats env (filter (λ (s : Seat). ltb t s.launch.expires_at) seats)

unfoldable pub prepare_batch :
    Env → Web → (tenant_id batch_id : String) → (body : Option (Option ℕ)) → M (Reply BatchPrepared)
prepare_batch env web tenant_id batch_id body =
    prepare_due env web tenant_id batch_id (concurrency_of body)
