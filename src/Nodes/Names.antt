-- ===== src/Nodes/Names.antt =====
-- `resolveNodeNamesToIds` of runtime/nodes.ts: node names of a request to node identifiers.
pub mod Split
use Prim.Native.Char.{code}
use labforge.Base.{
  ℕ, String, Bool, Option, none, some, List, [], ◌∷◌, ◌==◌, ◌||◌, ◌&&◌, not, if◌then◌else◌, any,
  filter, map, num_eq, leb,
}
use labforge.Data.{Node}
use labforge.World.{Env}

-- White space and line terminators of ECMAScript.
unfoldable pub is_space : ℕ → Bool
is_space c =
    (leb 9 c && leb c 13)
    || num_eq c 32
    || num_eq c 160
    || num_eq c 0x1680
    || (leb 0x2000 c && leb c 0x200a)
    || num_eq c 0x2028
    || num_eq c 0x2029
    || num_eq c 0x202f
    || num_eq c 0x205f
    || num_eq c 0x3000
    || num_eq c 0xfeff

unfoldable pub trim_start : String → String
unfolding is_space
trim_start String.[] = ""
trim_start (String.◌∷◌ c s) = if is_space (code c) then trim_start s else String.◌∷◌ c s

unfoldable pub trim_end : String → String
unfolding is_space
trim_end String.[] = ""
trim_end (String.◌∷◌ c s) = elim (trim_end s) [
  | String.[] ↦ if is_space (code c) then "" else String.◌∷◌ c ""
  | String.◌∷◌ d t ↦ String.◌∷◌ c (String.◌∷◌ d t)
]

unfoldable pub trim : String → String
unfolding trim_start trim_end
trim s = trim_end (trim_start s)

-- `Array.from(new Set(xs))`: the first of each value, in order.
unfoldable pub dedup_from : List String → List String → List String
dedup_from seen [] = []
dedup_from seen (x ∷ xs) =
    let old = dedup_from seen xs in
    let new = x ∷ dedup_from (x ∷ seen) xs in if any (λ y. y == x) seen then old else new

unfoldable pub wanted_names : List String → List String
unfolding dedup_from trim
wanted_names names = dedup_from [] (filter (λ n. not (n == "")) (map trim names))

-- `new Map(…).get(key)`: of equal keys the last entry counts.
unfoldable pub last_id : Env → String → List Node → Option String
last_id env key [] = none
last_id env key (n ∷ ns) = elim (last_id env key ns) [
  | some id ↦ some id
  | none ↦ if env.to_lower n.name == key then some n.id else none
]

pub record ResolvedNames : Type 0 where
  pub ids : List String
  pub unknown : List String

-- One round of the loop: `if (id) ids.push(id); else unknown.push(name);`
abbrev pub push_name : String → Option String → ResolvedNames → ResolvedNames
push_name name none r = record r { unknown = name ∷ r.unknown }
push_name name (some id) r =
    if id == "" then record r { unknown = name ∷ r.unknown } else record r { ids = id ∷ r.ids }

unfoldable pub resolve_wanted : Env → List Node → List String → ResolvedNames
unfolding last_id
resolve_wanted env nodes [] = record { ids = []; unknown = [] }
resolve_wanted env nodes (name ∷ names) =
    push_name name (last_id env (env.to_lower name) nodes) (resolve_wanted env nodes names)

unfoldable pub resolve_node_names_to_ids : Env → List Node → List String → ResolvedNames
unfolding resolve_wanted wanted_names
resolve_node_names_to_ids env nodes names = resolve_wanted env nodes (wanted_names names)
