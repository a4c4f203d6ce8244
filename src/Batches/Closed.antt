-- ===== src/Batches/Closed.antt =====
-- What a termination leaves of the launches of a batch.
use labforge.Base.{
  some, ℕ, ◌≡◌, refl, String, Bool, true, false, Option, none, List, [], ◌∷◌, if◌then◌else◌,
  or_else,
}
use labforge.Exec.{Result, ok, pure, gets, ◌>>=◌}
use labforge.Exec.Laws.{bind-ok}
use labforge.Data.{Launch}
use labforge.World.{World, Env, date_now}
use labforge.Store.{now, ask}
use labforge.Web.{Web, Reply, refuse, answer}
use labforge.Launches.{set_revoked}
use labforge.Batches.Seats.{end_seats-Returned}
use labforge.Batches.{
  Seat, Terminated, in_batch, update_where, update_launches, end_seats, seats_of, terminate_seats,
  terminate_batch, close_seats,
}

-- No launch of the list that the test picks holds a token.
abbrev pub AllRevoked : (Launch → Bool) → List Launch → Type 0
AllRevoked p [] = Unit
AllRevoked p (l ∷ ls) = (p l ≡ true → l.token_jti ≡ none) × AllRevoked p ls

-- A test that the revocation of a launch does not change.
abbrev pub Ignores : (Launch → Launch) → (Launch → Bool) → Type 0
Ignores f p = (l : Launch) → p (f l) ≡ p l

module _ (p : Launch → Bool) (t : ℕ) (h : Ignores (set_revoked t) p) where
  one-Revoked :
      (b : Bool) (l : Launch)
      → p l ≡ b
      → p (if b then set_revoked t l else l) ≡ true
      → (if b then set_revoked t l else l).token_jti ≡ none
  one-Revoked true l e q = refl
  one-Revoked false l e q = cc

  update_where-AllRevoked : (ls : List Launch) → AllRevoked p (update_where p (set_revoked t) ls)
  unfolding update_where
  update_where-AllRevoked [] = tt
  update_where-AllRevoked (l ∷ ls) = (one-Revoked (p l) l refl, update_where-AllRevoked ls)

-- A termination that was answered, and the state after it.
pub record Ended (p : Launch → Bool) (r : Result (Reply Terminated)) (w : World) : Type 0 where
  pub reply : Terminated
  pub answered : r ≡ ok (answer reply)
  pub closed : AllRevoked p w.launches

-- What the seats of a batch are answered with.
abbrev pub Closes : (Launch → Bool) → List Seat → Result (Reply Terminated) → World → Type 0
Closes p [] r w = r ≡ ok (refuse 404 "batch_not_found")
Closes p (s ∷ ss) r w = Ended p r w

in_batch-Ignores :
    (web : Web) (tenant_id batch_id : String) (t : ℕ)
    → Ignores (set_revoked t) (in_batch web tenant_id batch_id)
unfolding in_batch
in_batch-Ignores web tenant_id batch_id t l = refl

module _ (env : Env) (web : Web) (tenant_id batch_id : String) where
  close_seats-Ended :
      (n : ℕ) (w : World)
      → Ended
          (in_batch web tenant_id batch_id)
          (close_seats env (in_batch web tenant_id batch_id) n w).0
          (close_seats env (in_batch web tenant_id batch_id) n w).1
  unfolding close_seats update_launches now ask pure ◌>>=◌
  close_seats-Ended n w = record {
    reply = _;
    answered = refl;
    closed =
        update_where-AllRevoked (in_batch web tenant_id batch_id) (env.num_answer w.calls date_now)
          (in_batch-Ignores web tenant_id batch_id _) w.launches;
  }

  terminate_seats-Closes :
      (delete_volumes : Bool) (ss : List Seat) (w : World)
      → Closes
          (in_batch web tenant_id batch_id)
          ss
          (terminate_seats env web tenant_id batch_id delete_volumes ss w).0
          (terminate_seats env web tenant_id batch_id delete_volumes ss w).1
  unfolding terminate_seats pure
  terminate_seats-Closes delete_volumes [] w = refl
  terminate_seats-Closes delete_volumes (s ∷ ss) w =
      let ends = end_seats-Returned env delete_volumes (s ∷ ss) w in
      rw
        (bind-ok (end_seats env delete_volumes (s ∷ ss))
          (close_seats env (in_batch web tenant_id batch_id)) w ends.value ends.returned)
        (close_seats-Ended ends.value (end_seats env delete_volumes (s ∷ ss) w).1)

  -- What a termination is answered with, in the state that it leaves.
  abbrev pub Terminates : Option (Option Bool) → World → Result (Reply Terminated) → World → Type 0
  Terminates none w r t = (r ≡ ok (refuse 400 "invalid_body")) × (t ≡ w)
  Terminates (some o) w r t =
      Closes (in_batch web tenant_id batch_id) (seats_of web tenant_id batch_id w) r t

  -- A termination with an invalid body is answered with 400 and changes nothing. With a valid one it is
  -- answered with 404 when the batch has no launch. Otherwise it does not throw,
  -- whatever the destruction of its instances does, and no launch of the batch holds a token after it.
  pub terminate_batch-Closes :
      (body : Option (Option Bool)) (w : World)
      → Terminates body w
          (terminate_batch env web tenant_id batch_id body w).0
          (terminate_batch env web tenant_id batch_id body w).1
  unfolding terminate_batch gets ◌>>=◌ pure
  terminate_batch-Closes none w = (refl, refl)
  terminate_batch-Closes (some delete_volumes) w =
      terminate_seats-Closes (or_else delete_volumes false) (seats_of web tenant_id batch_id w) w
