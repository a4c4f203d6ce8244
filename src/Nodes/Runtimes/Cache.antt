-- ===== src/Nodes/Runtimes/Cache.antt =====
-- The cache of runtimes.
use labforge.Base.{
  String, ◌≡◌, refl, sym, ap, ◌∙◌, eq_refl, Option, none, some, arith, Option-cases, inl, inr,
}
use labforge.Exec.{Result, ok, err, continue, pure, gets, modify, ◌>>=◌}
use labforge.Data.{Node}
use labforge.World.{World, Env, Client, Runtime, RuntimeName, docker, mock, docker_runtime}
use labforge.Table.{lookup}
use labforge.Nodes.Runtimes.{
  cache_key, remember_runtime, build_docker_client, runtime_key, proxy_host_of, bind_ip_of,
  build_runtime, runtime_under, get_node_runtime,
}

-- What the cache holds for a node.
abbrev pub cached : Option Node → World → Option (String × Runtime)
cached n w = lookup cache_key (runtime_key n) w.runtime_cache

unok : {a b : Runtime} → Result.ok a ≡ ok b → a ≡ b
unok q = cc

module _ (env : Env) (n : Option Node) where
  hit :
      (w : World) (e : String × Runtime)
      → cached n w ≡ some e
      → runtime_under docker env n w ≡ (ok e.1, w)
  unfolding runtime_under build_runtime pure gets ◌>>=◌
  hit w e h = rw h refl

  built :
      (w : World) (rt : Runtime)
      → cached n w ≡ none
      → (runtime_under docker env n w).0 ≡ ok rt
      → Path
          (Option (String × Runtime))
          (cached n (runtime_under docker env n w).1)
          (some (runtime_key n, rt))
  unfolding runtime_under build_runtime pure gets modify ◌>>=◌ lookup
  built w rt e h =
      rw e (client (build_docker_client env n w).0 (build_docker_client env n w).1 (rw e at h))
    where
      client :
          (r : Result Client) (s : World)
          → (continue r
              (λ c.
                modify (
                  remember_runtime
                    (runtime_key n)
                    (docker_runtime c (proxy_host_of n) (bind_ip_of n)))
                >>= λ _. pure (docker_runtime c (proxy_host_of n) (bind_ip_of n)))
              s).0
            ≡ ok rt
          → Path
              (Option (String × Runtime))
              (cached n
                (continue r
                  (λ c.
                    modify (
                      remember_runtime
                        (runtime_key n)
                        (docker_runtime c (proxy_host_of n) (bind_ip_of n)))
                    >>= λ _. pure (docker_runtime c (proxy_host_of n) (bind_ip_of n)))
                  s).1)
              (some (runtime_key n, rt))
      client (ok c) s q = rw (eq_refl (runtime_key n)) (ap (λ x. some (runtime_key n, x)) (unok q))
      client (err x) s q = ground (arith, q)

  docker_again :
      (w : World) (rt : Runtime)
      → (runtime_under docker env n w).0 ≡ ok rt
      → runtime_under docker env n (runtime_under docker env n w).1
        ≡ (ok rt, (runtime_under docker env n w).1)
  docker_again w rt h = elim (Option-cases (cached n w)) [
    | inl miss ↦ hit (runtime_under docker env n w).1 (runtime_key n, rt) (built w rt miss h)
    | inr (e, q) ↦
        let same = hit w e q in
        let rt_is : e.1 ≡ rt = unok (ap (λ p. p.0) (sym same) ∙ h) in
        rw (ap (λ p. p.1) same) (same ∙ ap (λ r. (Result.ok r, w)) rt_is)
  ]

  again_under :
      (k : RuntimeName) (w : World) (rt : Runtime)
      → (runtime_under k env n w).0 ≡ ok rt
      → runtime_under k env n (runtime_under k env n w).1 ≡ (ok rt, (runtime_under k env n w).1)
  again_under docker w rt h = docker_again w rt h
  again_under mock w rt h =
      unfold runtime_under pure in ap (λ r. (r, w)) (unfold runtime_under pure in h)

-- Once a node's runtime is known, asking for it again gives the same runtime, and neither calls nor
-- changes anything.
pub get_node_runtime-again :
    (env : Env) (n : Option Node) (w : World) (rt : Runtime)
    → (get_node_runtime env n w).0 ≡ ok rt
    → get_node_runtime env n (get_node_runtime env n w).1 ≡ (ok rt, (get_node_runtime env n w).1)
unfolding get_node_runtime
get_node_runtime-again env n w rt h = again_under env n env.config.runtime w rt h
