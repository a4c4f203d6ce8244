-- ===== src/Data/Statuses.antt =====
-- The sets of statuses that the queries and guards of packages/control-plane/src name.
use labforge.Base.{Bool, true, false}
use labforge.Data.{
  Status, pending, provisioning, ready, idle, paused, terminating, terminated, failed,
}

-- REUSABLE_STATUSES of orchestrator.ts
abbrev pub is_reusable : Status → Bool
is_reusable pending = true
is_reusable provisioning = true
is_reusable ready = true
is_reusable idle = true
is_reusable paused = true
is_reusable _ = false

-- `notIn: ['terminated', 'failed']`
abbrev pub is_counted : Status → Bool
is_counted terminated = false
is_counted failed = false
is_counted _ = true

-- `notIn: ['terminated', 'terminating', 'failed']`
abbrev pub is_live : Status → Bool
is_live terminated = false
is_live terminating = false
is_live failed = false
is_live _ = true

-- `in: ['ready', 'idle']`
abbrev pub is_up : Status → Bool
is_up ready = true
is_up idle = true
is_up _ = false

-- `in: ['provisioning', 'ready']`
abbrev pub is_warm : Status → Bool
is_warm provisioning = true
is_warm ready = true
is_warm _ = false

abbrev pub is_ready : Status → Bool
is_ready ready = true
is_ready _ = false

abbrev pub is_paused : Status → Bool
is_paused paused = true
is_paused _ = false

-- `status === 'paused' || status === 'terminated' || status === 'failed'`
abbrev pub is_stopped : Status → Bool
is_stopped paused = true
is_stopped terminated = true
is_stopped failed = true
is_stopped _ = false
