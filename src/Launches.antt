-- ===== src/Launches.antt =====
-- The routes of a launch: packages/control-plane/src/routes/launches.ts. The bodies come parsed (zod):
-- `none` is a body that the schema refuses.
pub mod Prepare
pub mod Regenerated
use labforge.Base.{
  ℕ, ◌*◌, min, String, ◌<>◌, Bool, true, false, Option, none, some, List, [], ◌∷◌, ◌==◌, ◌&&◌, find,
  or_else,
}
use labforge.Exec.{pure, gets, ◌>>=◌, ◌>>◌}
use labforge.Data.{Launch, Template, UsageEvent, launch_created, launch_minutes}
use labforge.World.{M, World, Env}
use labforge.Store.{now, fresh, update_launch, create_launch, emit_usage}
use labforge.Web.{Web, Reply, refuse, answer}
use labforge.Tokens.{Signed, LaunchPayload, sign_launch_token, hash_user_id}
use labforge.Nodes.Runtimes.{truthy}
use labforge.Nodes.Names.{ResolvedNames, resolve_node_names_to_ids}

-- `findFirst({ where: { id, tenantId } })`
unfoldable pub find_tenant_launch : (tenant_id id : String) → World → Option Launch
find_tenant_launch tenant_id id w =
    find (λ (l : Launch). l.id == id && l.tenant_id == tenant_id) w.launches

unfoldable pub find_tenant_template : (tenant_id id : String) → World → Option Template
find_tenant_template tenant_id id w =
    find (λ (t : Template). t.id == id && t.tenant_id == tenant_id) w.templates

abbrev pub payload_of : Launch → (jti : String) → LaunchPayload
payload_of l jti = record {
  sub = l.id;
  jti = jti;
  tenant_id = l.tenant_id;
  template_id = l.template_id;
  user_id_hash = l.user_id_hash;
}

unfoldable pub launch_url : Env → Web → (token : String) → String
launch_url env web token =
    env.config.public_api_url <> ("/launch/redeem?t=" <> web.encode_uri_component token)

-- What the routes that sign answer with.
pub record LaunchLink : Type 0 where
  pub launch_id : String
  pub url : String
  pub expires_at : ℕ

-- LaunchRequest; an absent list of names is the empty one.
pub record LaunchRequest : Type 0 where
  pub template_id : String
  pub user_id : String
  pub user_display_name : Option String
  pub duration_minutes : ℕ
  pub return_url : Option String
  pub webhook_url : Option String
  pub node_names : List String
  pub context : String

abbrev pub new_launch :
    LaunchRequest
    → LaunchPayload
    → (minutes : ℕ) → List String
    → (created_at expires_at : ℕ) → Launch
new_launch body p minutes node_ids created_at expires_at = record {
  id = p.sub;
  tenant_id = p.tenant_id;
  template_id = p.template_id;
  user_id_hash = p.user_id_hash;
  user_display_name = body.user_display_name;
  duration_minutes = minutes;
  return_url = body.return_url;
  webhook_url = body.webhook_url;
  context = body.context;
  node_ids = node_ids;
  token_jti = some p.jti;
  redeemed_at = none;
  instance_id = none;
  created_at = created_at;
  expires_at = expires_at;
}

abbrev pub created_event : LaunchPayload → ℕ → ℕ → UsageEvent
created_event p minutes t = record {
  tenant_id = p.tenant_id;
  kind = launch_created;
  launch_id = some p.sub;
  instance_id = none;
  template_id = some p.template_id;
  user_id_hash = some p.user_id_hash;
  payload = launch_minutes minutes;
  occurred_at = t;
}

abbrev pub new_payload : Template → (launch_id jti user_id_hash : String) → LaunchPayload
new_payload template launch_id jti user_id_hash = record {
  sub = launch_id;
  jti = jti;
  tenant_id = template.tenant_id;
  template_id = template.id;
  user_id_hash = user_id_hash;
}

-- The seat is signed and stored; the column `createdAt` has the time of the insertion.
unfoldable pub issue : Env → Web → LaunchRequest → Template → List String → M (Reply LaunchLink)
issue env web body template node_ids = do
  let minutes = min body.duration_minutes env.config.lab_max_duration_minutes
  launch_id ← fresh env
  jti ← fresh env
  let p = new_payload template launch_id jti (hash_user_id web body.user_id)
  signed ← sign_launch_token env web p none
  t ← now env
  create_launch (new_launch body p minutes node_ids t signed.expires_at)
  emit_usage env (created_event p minutes)
  pure (
      answer (record {
        launch_id = launch_id;
        url = launch_url env web signed.token;
        expires_at = signed.expires_at;
      }))

-- An unknown node name is an error.
unfoldable pub issue_on :
    Env → Web → LaunchRequest → Template → (unknown ids : List String) → M (Reply LaunchLink)
issue_on env web body template [] ids = issue env web body template ids
issue_on env web body template (u ∷ us) ids = pure (refuse 400 "unknown_node_names")

unfoldable pub issue_template :
    Env → Web → LaunchRequest → List String → Option Template → M (Reply LaunchLink)
issue_template env web body names none = pure (refuse 404 "template_not_found")
issue_template env web body [] (some template) = issue env web body template []
issue_template env web body (n ∷ ns) (some template) = do
  nodes ← gets (λ w. w.nodes)
  let resolved = resolve_node_names_to_ids env nodes (n ∷ ns)
  issue_on env web body template resolved.unknown resolved.ids

unfoldable pub create_route :
    Env → Web → (tenant_id : String) → Option LaunchRequest → M (Reply LaunchLink)
create_route env web tenant_id none = pure (refuse 400 "invalid_body")
create_route env web tenant_id (some body) = do
  template ← gets (find_tenant_template tenant_id body.template_id)
  issue_template env web body body.node_names template

abbrev pub set_revoked : ℕ → Launch → Launch
set_revoked t l = record l { token_jti = none; expires_at = t }

unfoldable pub revoke_row : Env → (id : String) → Option Launch → M (Reply (Unit {0}))
revoke_row env id none = pure (refuse 404 "not_found")
revoke_row env id (some launch) = do t ← now env; update_launch id (set_revoked t); pure (answer tt)

-- POST /:id/revoke
unfoldable pub revoke : Env → (tenant_id id : String) → M (Reply (Unit {0}))
revoke env tenant_id id = do row ← gets (find_tenant_launch tenant_id id); revoke_row env id row

abbrev pub set_regenerated : String → ℕ → Launch → Launch
set_regenerated jti t l = record l { token_jti = some jti; expires_at = t; redeemed_at = none }

unfoldable pub regenerate_row :
    Env → Web → (id : String) → (ttl_hours : Option ℕ) → Option Launch → M (Reply LaunchLink)
regenerate_row env web id ttl_hours none = pure (refuse 404 "not_found")
regenerate_row env web id ttl_hours (some launch) = do
  jti ← fresh env
  signed ← sign_launch_token env web (payload_of launch jti) (some (or_else ttl_hours 720 * 3600))
  update_launch id (set_regenerated jti signed.expires_at)
  pure (
      answer (record {
        launch_id = id;
        url = launch_url env web signed.token;
        expires_at = signed.expires_at;
      }))

-- POST /:id/regenerate
unfoldable pub regenerate :
    Env → Web → (tenant_id id : String) → (ttl_hours : Option (Option ℕ)) → M (Reply LaunchLink)
regenerate env web tenant_id id none = pure (refuse 400 "invalid_body")
regenerate env web tenant_id id (some ttl_hours) = do
  row ← gets (find_tenant_launch tenant_id id)
  regenerate_row env web id ttl_hours row

unfoldable pub preview_jti : Env → Web → Launch → Option String → M (Reply LaunchLink)
preview_jti env web launch none = pure (refuse 409 "revoked")
preview_jti env web launch (some jti) = do
  signed ← sign_launch_token env web (payload_of launch jti) (some 300)
  pure (
      answer (record {
        launch_id = launch.id;
        url = launch_url env web signed.token;
        expires_at = signed.expires_at;
      }))

unfoldable pub preview_row : Env → Web → Option Launch → M (Reply LaunchLink)
preview_row env web none = pure (refuse 404 "not_found")
preview_row env web (some launch) = preview_jti env web launch (truthy launch.token_jti)

-- POST /:id/preview-url
unfoldable pub preview_url : Env → Web → (tenant_id id : String) → M (Reply LaunchLink)
preview_url env web tenant_id id = do
  row ← gets (find_tenant_launch tenant_id id)
  preview_row env web row
