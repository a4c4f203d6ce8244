-- ===== src/Launches/Prepare.antt =====
-- POST /api/v1/launches/:id/prepare: make or resume the lab of a launch before the student comes.
use labforge.Base.{
  ℕ, ◌*◌, String, Bool, true, false, Option, none, some, ◌&&◌, not, if◌then◌else◌, leb, ltb,
  text_option_eq, or_else, is_some,
}
use labforge.Exec.{Result, ok, err, row_not_found, or_fail, pure, gets, lift, attempt, ◌>>=◌, ◌>>◌}
use labforge.Data.{Launch, Template, Instance, Status, Scheme, http, https}
use labforge.Data.Statuses.{is_reusable, is_up, is_paused}
use labforge.World.{M, World, Env}
use labforge.Table.{lookup}
use labforge.Store.{now, find_instance, update_launch, instance_key, template_key}
use labforge.Launches.{find_tenant_launch}
use labforge.Web.{Web, Reply, refuse, refuse_with, answer}
use labforge.Nodes.Runtimes.{truthy}
use labforge.Orchestrator.Hosts.{runtime_for}
use labforge.Orchestrator.Lifecycle.{resume_instance, wait_until_ready}
use labforge.Orchestrator.Acquire.{AcquireInput, acquire_instance}

-- `include: { template: true, instance: true }`
pub record Included : Type 0 where
  pub template : Option Template
  pub instance : Option Instance

abbrev pub instance_at : Option String → World → Option Instance
instance_at none w = none
instance_at (some id) w = lookup instance_key id w.instances

unfoldable pub include : Launch → World → Included
include l w = record {
  template = lookup template_key l.template_id w.templates;
  instance = instance_at l.instance_id w;
}

-- The row whose container can still be used.
abbrev pub alive : Option Instance → Option Instance
alive none = none
alive (some i) = if is_reusable i.status then some i else none

abbrev pub acquire_input : Launch → Template → AcquireInput
acquire_input l t = record {
  tenant_id = l.tenant_id;
  template = t;
  user_id_hash = l.user_id_hash;
  duration_minutes = l.duration_minutes;
  expires_at = some l.expires_at;
  node_ids = l.node_ids;
}

-- `spec.upstreamScheme === 'https' ? 'https' : 'http'`, of the stored JSON.
unfoldable pub upstream_scheme : Web → Template → Scheme
upstream_scheme web t =
    if text_option_eq (web.text_field t.spec "upstreamScheme") (some "https") then https else http

-- `instance.status === 'paused' && instance.runtimeId`
abbrev pub sleeps : Instance → Bool
sleeps i = is_paused i.status && is_some (truthy i.runtime_id)

pub record Prepared : Type 0 where
  pub launch_id : String
  pub instance_id : String
  pub subdomain : String
  pub status : Status
  pub ready : Bool

abbrev pub prepared : Launch → Instance → Bool → Prepared
prepared l i b = record {
  launch_id = l.id;
  instance_id = i.id;
  subdomain = i.subdomain;
  status = i.status;
  ready = b;
}

-- `findUniqueOrThrow` after a wait that succeeded.
unfoldable pub report_ready : Launch → Instance → Bool → M (Reply Prepared)
report_ready l i false = pure (answer (prepared l i false))
report_ready l i true = do
  row ← find_instance i.id
  fresh_row ← lift (or_fail row_not_found row)
  pure (answer (prepared l fresh_row true))

unfoldable pub await_upstream :
    Env
    → Web
    → Launch
    → Template
    → Instance
    → ℕ
    → Option String
    → Option String
    → M (Reply Prepared)
await_upstream env web l t i wait_seconds (some runtime_id) (some upstream) = do
  runtime ← runtime_for env i.node_id
  b ← wait_until_ready env runtime runtime_id upstream (wait_seconds * 1000) (upstream_scheme web t)
  report_ready l i b
await_upstream env web l t i wait_seconds _ _ = pure (answer (prepared l i (is_up i.status)))

unfoldable pub finish : Env → Web → Launch → Template → ℕ → Instance → M (Reply Prepared)
finish env web l t wait_seconds i =
    if ltb 0 wait_seconds && not (is_up i.status)
    then await_upstream env web l t i wait_seconds (truthy i.runtime_id) (truthy i.upstream)
    else pure (answer (prepared l i (is_up i.status)))

unfoldable pub prepare_resumed :
    Env → Web → Launch → Template → ℕ → Result Instance → M (Reply Prepared)
prepare_resumed env web l t wait_seconds (err e) =
    pure (refuse_with 503 "resume_failed" (env.error_text e))
prepare_resumed env web l t wait_seconds (ok i) = finish env web l t wait_seconds i

abbrev pub set_instance : String → Launch → Launch
set_instance id l = record l { instance_id = some id }

unfoldable pub prepare_acquired :
    Env → Web → Launch → Template → ℕ → Result Instance → M (Reply Prepared)
prepare_acquired env web l t wait_seconds (err e) =
    pure (refuse_with 500 "provision_failed" (env.error_text e))
prepare_acquired env web l t wait_seconds (ok i) = do
  update_launch l.id (set_instance i.id)
  finish env web l t wait_seconds i

unfoldable pub prepare_lab :
    Env → Web → Launch → Template → ℕ → Option Instance → M (Reply Prepared)
prepare_lab env web l t wait_seconds none = do
  r ← attempt (acquire_instance env (acquire_input l t))
  prepare_acquired env web l t wait_seconds r
prepare_lab env web l t wait_seconds (some i) =
    if sleeps i
    then (do
      r ← attempt (resume_instance env i.id (wait_seconds * 1000))
      prepare_resumed env web l t wait_seconds r)
    else finish env web l t wait_seconds i

unfoldable pub prepare_row : Env → Web → ℕ → Launch → Included → M (Reply Prepared)
prepare_row env web wait_seconds l found = do
  t ← now env
  if leb l.expires_at t then pure (refuse 410 "launch_expired") else (do
    template ← lift (or_fail row_not_found found.template)
    prepare_lab env web l template wait_seconds (alive found.instance))

unfoldable pub prepare_found : Env → Web → ℕ → Option Launch → M (Reply Prepared)
prepare_found env web wait_seconds none = pure (refuse 404 "not_found")
prepare_found env web wait_seconds (some l) = do
  found ← gets (include l)
  prepare_row env web wait_seconds l found

-- The body is the wait in seconds, 0 where it is absent.
unfoldable pub prepare :
    Env → Web → (tenant_id id : String) → (wait_seconds : Option (Option ℕ)) → M (Reply Prepared)
prepare env web tenant_id id none = pure (refuse 400 "invalid_body")
prepare env web tenant_id id (some wait_seconds) = do
  row ← gets (find_tenant_launch tenant_id id)
  prepare_found env web (or_else wait_seconds 0) row
