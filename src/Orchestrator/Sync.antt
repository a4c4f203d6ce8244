-- ===== src/Orchestrator/Sync.antt =====
-- `syncInstanceUpstream`: after a resume or a restart, store the ports that the daemon now publishes.
pub mod Outcome
use labforge.Base.{
  ℕ, String, ◌<>◌, Bool, false, Option, none, some, ◌&&◌, ◌||◌, not, if◌then◌else◌, num_eq,
  or_option, num_option_eq, text_option_eq,
}
use labforge.Base.Texts.{show, before_last_colon}
use labforge.Exec.{pure, try_catch, ◌>>=◌, ◌>>◌}
use labforge.Data.{Instance, Inspection}
use labforge.World.{M, Env, Runtime, on_runtime, inspect_instance}
use labforge.Store.{ask, update_instance}
use labforge.Nodes.Runtimes.{truthy}

pub record Synced : Type 0 where
  pub host_port : Option ℕ
  pub upstream : Option String
  pub rdp_host_port : Option ℕ
  pub rdp_drifted : Bool

abbrev pub unchanged : Instance → Synced
unchanged inst = record {
  host_port = inst.host_port;
  upstream = inst.upstream;
  rdp_host_port = inst.rdp_host_port;
  rdp_drifted = false;
}

-- What the inspection asks to write.
pub record Drift : Type 0 where
  pub next_host_port : Option ℕ
  pub next_upstream : Option String
  pub next_rdp : Option ℕ
  pub http_drifted : Bool
  pub rdp_drifted : Bool

-- Zero is falsy.
abbrev pub nonzero : Option ℕ → Option ℕ
nonzero none = none
nonzero (some n) = if num_eq n 0 then none else some n

-- `port && map ? map[`${port}/tcp`] : undefined`
abbrev pub published : Option ℕ → Option (ℕ → Option ℕ) → Option ℕ
published none m = none
published (some p) none = none
published (some p) (some m) = m p

abbrev pub join_port : Option String → ℕ → Option String
join_port none port = none
join_port (some host) port = some (host <> (":" <> show port))

abbrev pub host_of : Option String → Option String
host_of none = none
host_of (some u) = truthy (before_last_colon u)

-- The helper `withPort`.
unfoldable pub with_port : Option String → ℕ → Option String
unfolding show before_last_colon
with_port u port = join_port (host_of (truthy u)) port

abbrev pub upstream_at : Option String → Option String → Option ℕ → Option String
upstream_at reported old none = old
upstream_at reported old (some port) =
    or_option (with_port (or_option reported old) port) (or_option reported old)

abbrev pub rdp_moved : Option ℕ → Option ℕ → Bool
rdp_moved none old = false
rdp_moved (some found) old = not (num_option_eq (some found) old)

abbrev pub differs : Option ℕ → Option String → Instance → Bool
differs (some p) (some u) inst =
    not (num_option_eq (some p) inst.host_port) || not (text_option_eq (some u) inst.upstream)
differs _ _ inst = false

unfoldable pub drift : Instance → Inspection → (primary rdp : Option ℕ) → Drift
drift inst info primary rdp =
    let port =
      or_option (published (nonzero primary) info.all_host_ports)
        (or_option info.host_port inst.host_port) in
    let upstream = upstream_at info.upstream inst.upstream port in
    let found = nonzero (published (nonzero rdp) info.all_host_ports) in
    let moved = rdp_moved found inst.rdp_host_port in
    record {
      next_host_port = port;
      next_upstream = upstream;
      next_rdp = if moved then found else inst.rdp_host_port;
      http_drifted = differs port upstream inst;
      rdp_drifted = moved;
    }

-- The `data` of the update.
abbrev pub persist : Drift → Instance → Instance
persist d r = record r {
  host_port = if d.http_drifted then d.next_host_port else r.host_port;
  upstream = if d.http_drifted then d.next_upstream else r.upstream;
  rdp_host_port = if d.rdp_drifted then d.next_rdp else r.rdp_host_port;
}

abbrev pub report : Instance → Drift → Synced
report inst d = record {
  host_port = if d.http_drifted then d.next_host_port else inst.host_port;
  upstream = if d.http_drifted then d.next_upstream else inst.upstream;
  rdp_host_port = d.next_rdp;
  rdp_drifted = d.rdp_drifted;
}

unfoldable pub write_drift : Instance → Drift → M Synced
write_drift inst d =
    if not d.http_drifted && not d.rdp_drifted
    then pure (unchanged inst)
    else (do update_instance inst.id (persist d); pure (report inst d))

unfoldable pub apply_inspection : Instance → Option ℕ → Option ℕ → Option Inspection → M Synced
apply_inspection inst primary rdp none = pure (unchanged inst)
apply_inspection inst primary rdp (some info) = write_drift inst (drift inst info primary rdp)

unfoldable pub sync_runtime :
    Env → Instance → Runtime → Option ℕ → Option ℕ → Option String → M Synced
sync_runtime env inst runtime primary rdp none = pure (unchanged inst)
sync_runtime env inst runtime primary rdp (some id) =
    try_catch
      (do
        info ← ask env.inspect_answer (on_runtime runtime (inspect_instance id))
        apply_inspection inst primary rdp info)
      (λ _. pure (unchanged inst))

unfoldable pub sync_instance_upstream :
    Env → Instance → Runtime → (primary_port rdp_port : Option ℕ) → M Synced
sync_instance_upstream env inst runtime primary rdp =
    sync_runtime env inst runtime primary rdp (truthy inst.runtime_id)
