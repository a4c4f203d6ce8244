-- ===== src/Proxy/Labels.antt =====
-- Which hosts `isLabHost` of packages/control-plane/src/wildcardProxy.ts takes for labs.
use labforge.Base.{ℕ, ◌+◌, String, ◌<>◌}
use labforge.World.{Env}

-- The characters of a text.
size : String → ℕ
size String.[] = 0
size (String.◌∷◌ c s) = size s + 1

abbrev pub suffix : Env → String
suffix env = "." <> env.to_lower env.config.public_lab_domain
