-- ===== src/NodeHealth/Outcome.antt =====
-- What a ping leaves behind.
use labforge.Base.{
  String, ◌≡◌, refl, ap, ◌∙◌, ◌==◌, eq_refl, true, false, not, none, some, List, [], ◌∷◌, filter,
  is_some, arith,
}
use labforge.Exec.{Error, Result, ok, err, pure, modify, try_catch, continue, handle, ◌>>=◌}
use labforge.Exec.Laws.{bind-ok, try_catch-ok}
use labforge.Exec.Moves.{Moves}
use labforge.Data.{Node}
use labforge.World.{World, M, Env, Client, Runtime, date_now, docker_version}
use labforge.Store.{node_key, ask, now, update_node, put_node}
use labforge.Table.{lookup, update, lookup-update}
use labforge.Nodes.Runtimes.{cache_key, build_docker_client, invalidate_node_runtime}
use labforge.Frame.Nodes.{same_nodes, node_rules, build_docker_client-nodes}
use labforge.NodeHealth.{
  Ping, reachable, unreachable, ping_node, set_seen, set_error, record_ping, poll_node, truncate,
}

-- The node was reached: it is seen, with its version, and has no error.
pub record Seen (id version : String) (t : World) : Type 0 where
  pub row : Node
  pub found : lookup node_key id t.nodes ≡ some row
  pub no_error : row.last_error ≡ none
  pub dated : is_some row.last_seen_at ≡ true
  pub versioned : row.docker_version ≡ some version

-- It was not: the error is on its row, the time it was last seen is that of `r`, and its runtime is
-- forgotten.
pub record Lost (id error : String) (r : Node) (t : World) : Type 0 where
  pub row : Node
  pub found : lookup node_key id t.nodes ≡ some row
  pub has_error : row.last_error ≡ some (truncate error 500)
  pub kept : row.last_seen_at ≡ r.last_seen_at
  pub forgotten : is_some (lookup cache_key id t.runtime_cache) ≡ false

dropped :
    (id : String) (cache : List (String × Runtime))
    → is_some (lookup cache_key id (filter (λ e. not (e.0 == id)) cache)) ≡ false
unfolding lookup
dropped id [] = refl
dropped id (e ∷ es) = ground (arith, dropped id es)

-- What the host of a node says: its client is built, and asked for its version.
abbrev pub contact : Env → Node → M String
contact env n = build_docker_client env (some n) >>= λ c. ask env.text_answer (docker_version c)

-- The state after a ping, by what the host said.
abbrev pub Recorded : Env → Node → (r : Node) → Result String → World → Type 0
Recorded env n r (ok v) t = Seen n.id v t
Recorded env n r (err e) t = Lost n.id (env.error_text e) r t

module _ (env : Env) (n r : Node) where
  abbrev There : World → Type 0
  There s = lookup node_key n.id s.nodes ≡ some r

  written :
      (f : Node → Node) (s : World)
      → ((x : Node) → (f x).id ≡ x.id)
      → There s
      → lookup node_key n.id (update node_key n.id f s.nodes) ≡ some (f r)
  written f s keep h = lookup-update node_key n.id n.id f s.nodes keep ∙ rw (eq_refl n.id, h) refl

  -- A ping that was heard is recorded, without an error.
  abbrev Done : Result String → Result (Unit {0}) → World → Type 0
  Done c o t = (o ≡ ok tt) × Recorded env n r c t

  record_seen :
      (v : String) (s : World)
      → There s
      → Done (ok v) (record_ping env n (reachable v) s).0 (record_ping env n (reachable v) s).1
  unfolding record_ping update_node put_node now ask pure ◌>>=◌
  record_seen v s h = rw h (
    refl,
    record {
      row = set_seen (env.num_answer s.calls date_now) v r;
      found = written (set_seen (env.num_answer s.calls date_now) v) s (λ x. refl) h;
      no_error = refl;
      dated = refl;
      versioned = refl;
    },
  )

  record_lost :
      (e : Error) (s : World)
      → There s
      → Done
          (err e)
          (record_ping env n (unreachable (env.error_text e)) s).0
          (record_ping env n (unreachable (env.error_text e)) s).1
  unfolding record_ping update_node put_node invalidate_node_runtime modify pure ◌>>=◌
  record_lost e s h = rw h (
    refl,
    record {
      row = set_error (env.error_text e) r;
      found = written (set_error (env.error_text e)) s (λ x. refl) h;
      has_error = refl;
      kept = refl;
      forgotten = dropped n.id s.runtime_cache;
    },
  )

  caught :
      (c : Result String) (m : M (Unit {0})) (s : World)
      → Done c (m s).0 (m s).1
      → Done c (try_catch m (λ _. pure tt) s).0 (try_catch m (λ _. pure tt) s).1
  caught c m s h = rw (try_catch-ok m (λ _. pure tt) s tt h.0) (refl, h.1)

  contact-There : (s : World) → There s → There (contact env n s).1
  contact-There s h =
      let still : Moves same_nodes (contact env n) =
        search (node_rules, build_docker_client-nodes) in
      ap (lookup node_key n.id) (still.at s) ∙ h

  -- How the ping ends, by what the host said.
  abbrev heard : Result String → Ping
  heard (ok v) = reachable v
  heard (err e) = unreachable (env.error_text e)

  abbrev or_lost : Error → M Ping
  or_lost e = pure (unreachable (env.error_text e))

  by_version :
      (a : Result String) (t : World)
      → handle
          (continue a (λ v. pure (reachable v)) t).0
          or_lost
          (continue a (λ v. pure (reachable v)) t).1
        ≡ (ok (heard a), t)
  unfolding pure
  by_version (ok v) t = refl
  by_version (err e) t = refl

  by_client :
      (a : Result Client) (k : Client → M String) (t : World)
      → handle
          (continue a (λ c. k c >>= λ v. pure (reachable v)) t).0
          or_lost
          (continue a (λ c. k c >>= λ v. pure (reachable v)) t).1
        ≡ (ok (heard (continue a k t).0), (continue a k t).1)
  by_client (ok c) k t = unfold ◌>>=◌ in by_version (k c t).0 (k c t).1
  by_client (err e) k t = unfold pure in refl

  ping_lem : (s : World) → ping_node env n s ≡ (ok (heard (contact env n s).0), (contact env n s).1)
  unfolding ping_node try_catch ◌>>=◌
  ping_lem s =
      by_client (build_docker_client env (some n) s).0 (λ c. ask env.text_answer (docker_version c))
        (build_docker_client env (some n) s).1

  record_heard :
      (c : Result String) (s : World)
      → There s
      → Done c (record_ping env n (heard c) s).0 (record_ping env n (heard c) s).1
  record_heard (ok v) s h = record_seen v s h
  record_heard (err e) s h = record_lost e s h

-- A ping of a node that is in the table does not throw. Where the client of the node is built and its host
-- answers with a version, the row is marked as seen, with the version and free of errors; where one of them
-- throws, the row keeps the time it was last seen, holds the text of that error, cut to 500 characters, and the
-- cached runtime of the node is dropped.
pub poll_node-records :
    (env : Env) (n r : Node) (w : World)
    → lookup node_key n.id w.nodes ≡ some r
    → ((poll_node env n w).0 ≡ ok tt) × Recorded env n r (contact env n w).0 (poll_node env n w).1
unfolding poll_node
poll_node-records env n r w h =
    rw
      (
        bind-ok (ping_node env n) (λ res. try_catch (record_ping env n res) (λ _. pure tt)) w
            (heard env n r (contact env n w).0) (ap (λ p. p.0) (ping_lem env n r w)),
        ap (λ p. p.1) (ping_lem env n r w),
      )
      (caught env n r (contact env n w).0 (record_ping env n (heard env n r (contact env n w).0))
        (contact env n w).1
        (record_heard env n r (contact env n w).0 (contact env n w).1 (contact-There env n r w h)))
