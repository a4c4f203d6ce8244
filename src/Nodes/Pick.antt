-- ===== src/Nodes/Pick.antt =====
-- `pickLeastLoadedNode` of runtime/nodes.ts: strict round-robin over the eligible nodes.
pub mod Ring
pub mod Choice
pub mod Contract
use Prim.Native.String.{compare}
use text.Mathlib.Text.{is_le}
use labforge.Base.{
  ℕ, zero, suc, ◌+◌, ◌-◌, ◌*◌, ◌%◌, String, ◌<>◌, Bool, true, Option, none, some, List, [], ◌∷◌,
  ◌==◌, ◌&&◌, if◌then◌else◌, any, filter, length, get_elem?, ltb, leb, text_option_eq,
}
use labforge.Exec.{modify, ◌>>◌, pure, gets, ◌>>=◌}
use labforge.Data.{Node, Instance}
use labforge.Data.Statuses.{is_counted}
use labforge.World.{World, M, Env}
use labforge.Table.{lookup}
use labforge.Store.{now}

-- Insertion sort by an order; equal elements keep their order.
module _ {ℓ} {A : Type ℓ} (le : A → A → Bool) where
  unfoldable pub insert_by : A → List A → List A
  insert_by x [] = x ∷ []
  insert_by x (y ∷ ys) = if le x y then x ∷ y ∷ ys else y ∷ insert_by x ys

  unfoldable pub sort_by : List A → List A
  unfolding insert_by
  sort_by [] = []
  sort_by (x ∷ xs) = insert_by x (sort_by xs)

-- `{ id: { in: whitelist } }`, where an empty or missing list restricts nothing.
abbrev pub listed : List String → Node → Bool
listed [] n = true
listed (x ∷ xs) n = any (λ id. id == n.id) (x ∷ xs)

-- A node seen at the cutoff or later, or never.
abbrev pub seen_since : ℕ → Option ℕ → Bool
seen_since cutoff none = true
seen_since cutoff (some t) = leb cutoff t

abbrev pub eligible : ℕ → List String → Node → Bool
eligible cutoff whitelist n = n.enabled && (seen_since cutoff n.last_seen_at && listed whitelist n)

-- Instances on a node that are neither terminated nor failed.
unfoldable pub load : World → String → ℕ
load w id = length (
    filter (λ (i : Instance). text_option_eq i.node_id (some id) && is_counted i.status)
      w.instances)

-- `cand.capacityMax > 0 && load >= cand.capacityMax`
abbrev pub full : (String → ℕ) → Node → Bool
full load_of n = ltb 0 n.capacity_max && leb n.capacity_max (load_of n.id)

-- One candidate of the walk: a full one is passed over for what the rest of the walk finds.
abbrev pub visit : (String → ℕ) → ℕ → Option (ℕ × Node) → Option Node → Option (ℕ × Node)
visit load_of idx rest none = none
visit load_of idx rest (some n) = if full load_of n then rest else some (idx, n)

-- The walk round the ring: `rounds` are left, and `i` are done. The result is the index and the node.
unfoldable pub walk : (String → ℕ) → List Node → (cursor : ℕ) → (rounds i : ℕ) → Option (ℕ × Node)
walk load_of ring cursor zero i = none
walk load_of ring cursor (suc r) i =
    let idx = (cursor + i) % length ring in
    visit load_of idx (walk load_of ring cursor r (suc i)) (get_elem? ring idx)

unfoldable pub join_comma : List String → String
join_comma [] = ""
join_comma (x ∷ []) = x
join_comma (x ∷ y ∷ ys) = x <> ("," <> join_comma (y ∷ ys))

abbrev pub text_le : String → String → Bool
text_le a b = is_le (compare a b)

unfoldable pub pool_key : List String → String
unfolding join_comma sort_by
pool_key [] = "__all__"
pool_key (x ∷ xs) = join_comma (sort_by text_le (x ∷ xs))

abbrev pub cursor_key : String × ℕ → String
cursor_key e = e.0

abbrev pub cursor_of : Option (String × ℕ) → ℕ
cursor_of none = 0
cursor_of (some e) = e.1

unfoldable pub get_cursor : String → World → ℕ
unfolding lookup
get_cursor key w =
    if key == "__all__" then w.rr_cursor else cursor_of (lookup cursor_key key w.rr_cursors_by_pool)

unfoldable pub set_cursor : String → ℕ → World → World
set_cursor key next w =
    if key == "__all__"
    then record w { rr_cursor = next }
    else record w { rr_cursors_by_pool = (key, next) ∷ w.rr_cursors_by_pool }

-- The load counts are fetched only where a cap is set; without one nothing reads them.
unfoldable pub load_map : List Node → World → String → ℕ
unfolding load
load_map ring w id = if any (λ (n : Node). ltb 0 n.capacity_max) ring then load w id else 0

-- `load >= only.capacityMax` for a single candidate, whose pick leaves the cursors alone.
unfoldable pub pick_only : Node → World → Option Node
unfolding load
pick_only n w = if full (load w) n then none else some n

-- Two candidates or more: store the cursor behind the pick.
unfoldable pub take_pick : String → ℕ → Option (ℕ × Node) → M (Option Node)
take_pick key size none = pure none
take_pick key size (some (idx, n)) = do modify (set_cursor key ((idx + 1) % size)); pure (some n)

unfoldable pub pick_ring : String → List Node → M (Option Node)
pick_ring key ring = do
  picked ← gets (λ w. walk (load_map ring w) ring (get_cursor key w) (length ring) 0)
  take_pick key (length ring) picked

unfoldable pub pick_from : List String → List Node → M (Option Node)
pick_from whitelist [] = pure none
pick_from whitelist (n ∷ []) = gets (pick_only n)
pick_from whitelist (n ∷ m ∷ ns) = pick_ring (pool_key whitelist) (n ∷ m ∷ ns)

-- `orderBy: { name: 'asc' }` over the eligible nodes.
unfoldable pub candidates : Env → ℕ → List String → World → List Node
unfolding sort_by
candidates env cutoff whitelist w =
    sort_by (λ a b. env.collate a.name b.name) (filter (eligible cutoff whitelist) w.nodes)

unfoldable pub pick_least_loaded_node : Env → List String → M (Option Node)
pick_least_loaded_node env whitelist = do
  t ← now env
  ring ← gets (candidates env (t - env.config.node_health_stale_seconds * 1000) whitelist)
  pick_from whitelist ring
