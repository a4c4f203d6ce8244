-- ===== src/Tests/Labs.antt =====
-- Examples of the lifecycle, the claims and the reaper.
use mathlib.Core.Path.{subst}
use labforge.Base.{
  Option, List, [], sym, Bool-cases, inl, inr, String, ◌≡◌, ◌≢◌, ◌==◌, if◌then◌else◌, refl, Bool,
  true, false, none, some, arith,
}
use labforge.Exec.{ok, pure, gets, modify, ◌>>=◌}
use labforge.Exec.Triple.{Post}
use labforge.Data.{Instance, Node, local}
use labforge.World.{World, Runtime, default_runtime}
use labforge.Store.{
  node_key, instance_key, find_node, update_instance, put_instance, emit_usage, now, ask,
}
use labforge.Table.{lookup, update}
use labforge.Frame.Added.{At}
use labforge.Nodes.Runtimes.{
  get_node_runtime, runtime_under, build_runtime, build_docker_client, construct, mode_client,
  cache_key, runtime_key,
}
use labforge.Orchestrator.Hosts.{runtime_for, runtime_at}
use labforge.Orchestrator.Destroy.{destroy_instance}
use labforge.Orchestrator.Destroy.Outcome.{IsTerminated, destroy_instance-terminates}
use labforge.Orchestrator.Lifecycle.{suspend_instance, resume_instance}
use labforge.Orchestrator.Lifecycle.Resume.{Awake, Unresumed, resume_instance-Awake}
use labforge.Orchestrator.Lifecycle.Outcome.{IsAsleep, suspend_instance-sleeps}
use labforge.Orchestrator.Provision.{ProvisionInput, provision_new}
use labforge.Orchestrator.Provision.Landing.{Landed, Refused, provision_new-lands}
use labforge.Orchestrator.Acquire.{
  AcquireInput, acquire_instance, claim_prewarm, claim_row, set_claimed,
}
use labforge.Orchestrator.Acquire.Reuse.{Assigned, Fails, requested}
use labforge.Orchestrator.Acquire.Outcome.{acquire_instance-assigns}
use labforge.Orchestrator.Acquire.Claims.{IsClaimed, claim_prewarm-claims, claim_prewarm-distinct}
use labforge.Orchestrator.Sync.{sync_instance_upstream}
use labforge.Orchestrator.Sync.Outcome.{Publishes, sync-Publishes}
use labforge.Redeem.Guards.{ticked}
use labforge.Reaper.{reconcile_once, tick_time}
use labforge.Reaper.Spares.{reaper_spares}
use labforge.Reaper.Effects.{AllReachable, reconcile_once-each, ruled}
use labforge.Reaper.Expiry.{reaper_terminates}
use labforge.Tests.{
  a_template, a_node, docker_env, an_env, a_world, a_world-IsKeyed, first_spare, second_spare,
  old_lab, live_lab,
}

abbrev warm_request : ProvisionInput
warm_request = record {
  tenant_id = "acme";
  template = a_template;
  user_id_hash = none;
  expires_at = 9000000;
  is_prewarm = true;
  node_ids = [];
}

provision_new-lands_example :
    Post
      (Landed warm_request a_world)
      (λ _. Refused warm_request a_world)
      (provision_new an_env warm_request a_world).0
      (provision_new an_env warm_request a_world).1
provision_new-lands_example = provision_new-lands an_env warm_request a_world

abbrev ann : AcquireInput
ann = record {
  tenant_id = "acme";
  template = a_template;
  user_id_hash = "ann";
  duration_minutes = 60;
  expires_at = none;
  node_ids = [];
}

acquire_instance-assigns_example :
    Post
      (Assigned ann (requested an_env ann a_world))
      (Fails an_env ann (requested an_env ann a_world) a_world)
      (acquire_instance an_env ann a_world).0
      (acquire_instance an_env ann a_world).1
acquire_instance-assigns_example = acquire_instance-assigns an_env ann a_world a_world-IsKeyed

-- The first claim takes the first spare, and the second one the second.
abbrev claimed : Instance
claimed = set_claimed "ann" 9500000 first_spare

abbrev after_claim : World
after_claim = (claim_prewarm an_env "shell" "ann" 9500000 [] a_world).1

ann_claims : (claim_prewarm an_env "shell" "ann" 9500000 [] a_world).0 ≡ ok (some claimed)
unfolding claim_prewarm claim_row update_instance put_instance emit_usage now ask ◌>>=◌ lookup
ann_claims = refl

bob_claims :
    (claim_prewarm an_env "shell" "bob" 9600000 [] after_claim).0
    ≡ ok (some (set_claimed "bob" 9600000 second_spare))
unfolding claim_prewarm claim_row update_instance put_instance emit_usage now ask ◌>>=◌ lookup
    update
bob_claims = refl

claim_prewarm-claims_example : IsClaimed "shell" "ann" 9500000 a_world after_claim claimed
claim_prewarm-claims_example =
    claim_prewarm-claims an_env "shell" "ann" 9500000 [] a_world claimed a_world-IsKeyed ann_claims

claim_prewarm-distinct_example : claimed.id ≢ second_spare.id
claim_prewarm-distinct_example =
    claim_prewarm-distinct an_env "shell" "shell" "ann" "bob" 9500000 9600000 [] [] a_world claimed
      (set_claimed "bob" 9600000 second_spare) a_world-IsKeyed ann_claims bob_claims

old_lab-row : lookup instance_key "i3" a_world.instances ≡ some old_lab
unfolding lookup
old_lab-row = refl

live_lab-row : lookup instance_key "i4" a_world.instances ≡ some live_lab
unfolding lookup
live_lab-row = refl

-- A node that is reached by the socket, or none.
abbrev IsLocal : Option Node → Type 0
IsLocal none = Unit
IsLocal (some n) = n.connection_mode ≡ local

local_resolves :
    (n : Option Node) (s : World)
    → IsLocal n
    → (rt : Runtime) × ((get_node_runtime docker_env n s).0 ≡ ok rt)
unfolding get_node_runtime runtime_under gets ◌>>=◌ build_runtime pure
local_resolves n s h = by_cache (lookup cache_key (runtime_key n) s.runtime_cache) n h
  where
    by_cache :
        (o : Option (String × Runtime)) (n : Option Node)
        → IsLocal n
        → (rt : Runtime) × ((build_runtime docker_env n o s).0 ≡ ok rt)
    by_cache (some e) n h = (e.1, refl)
    by_cache none none h = unfold build_docker_client construct modify in (_, refl)
    by_cache none (some n) h =
        unfold build_docker_client in rw h (unfold mode_client construct modify in (_, refl))

fleet-IsLocal : (id : String) → IsLocal (lookup node_key id a_world.nodes)
unfolding lookup
fleet-IsLocal id = elim (Bool-cases ("n1" == id)) [
  | inl e ↦ rw e refl
  | inr e ↦ rw e (second_local ("n2" == id))
]
  where
    second_local : (b : Bool) → IsLocal (if b then some (a_node "n2" 0) else none)
    second_local true = refl
    second_local false = tt

docker_env-AllReachable : AllReachable docker_env a_world.nodes
unfolding runtime_for runtime_at find_node gets pure ◌>>=◌
docker_env-AllReachable none s e = (default_runtime, refl)
docker_env-AllReachable (some id) s e = by_id (id == "")
  where
    by_id :
        (b : Bool)
        → (rt : Runtime) × ((runtime_at docker_env (if b then none else some id) s).0 ≡ ok rt)
    by_id true = (default_runtime, refl)
    by_id false =
        local_resolves (lookup node_key id s.nodes) s
          (subst (λ (ns : List Node). IsLocal (lookup node_key id ns)) (sym e) (fleet-IsLocal id))

destroy_instance-terminates_example :
    ((destroy_instance docker_env "i3" true a_world).0 ≡ ok tt)
    × IsTerminated "i3" (destroy_instance docker_env "i3" true a_world).1
destroy_instance-terminates_example =
    destroy_instance-terminates docker_env "i3" true a_world old_lab
      (docker_env-AllReachable (some "n1") a_world refl).0 old_lab-row
      (docker_env-AllReachable (some "n1") a_world refl).1

reaper_terminates_example : IsTerminated "i3" (reconcile_once docker_env a_world).1
reaper_terminates_example =
    reaper_terminates docker_env a_world "i3" old_lab docker_env-AllReachable a_world-IsKeyed
      old_lab-row refl (omega arith)

reaper_spares_example :
    lookup instance_key "i4" (reconcile_once an_env a_world).1.instances ≡ some live_lab
reaper_spares_example =
    reaper_spares an_env a_world "i4" live_lab a_world-IsKeyed live_lab-row refl refl refl

reconcile_once-each_example :
    reconcile_once an_env a_world
    ≡ (ok tt, ruled an_env (tick_time an_env a_world) (ticked a_world))
reconcile_once-each_example = reconcile_once-each an_env a_world

suspend_instance-sleeps_example :
    Post
      (λ _ t. At "i4" a_world IsAsleep t)
      (λ e t. At "i4" a_world (λ x. x ≡ live_lab) t)
      (suspend_instance an_env "i4" a_world).0
      (suspend_instance an_env "i4" a_world).1
suspend_instance-sleeps_example = suspend_instance-sleeps an_env "i4" a_world live_lab live_lab-row

sync-Publishes_example :
    Post
      (λ a t. At "i4" a_world (Publishes a) t)
      (λ e t. false ≡ true)
      (sync_instance_upstream an_env live_lab default_runtime (some 7681) none a_world).0
      (sync_instance_upstream an_env live_lab default_runtime (some 7681) none a_world).1
sync-Publishes_example =
    sync-Publishes an_env live_lab default_runtime (some 7681) none a_world live_lab-row

resume_instance-Awake_example :
    Post
      (Awake an_env live_lab a_world)
      (Unresumed an_env live_lab a_world)
      (resume_instance an_env "i4" 5000 a_world).0
      (resume_instance an_env "i4" 5000 a_world).1
resume_instance-Awake_example = resume_instance-Awake an_env "i4" 5000 a_world live_lab live_lab-row
