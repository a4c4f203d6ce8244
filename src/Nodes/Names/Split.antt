-- ===== src/Nodes/Names/Split.antt =====
-- The names of a request, split into those of nodes and those of none.
use mathlib.Core.Path.{subst}
use labforge.Base.{
  String, ◌≡◌, refl, ap, ◌∙◌, ◌==◌, eq_iff, ◌&&◌, Bool, true, false, Option, none, some, List, [],
  ◌∷◌, arith, any, if◌then◌else◌, Option-cases, Bool-cases, inl, inr, or_else,
}
use labforge.Data.{Node}
use labforge.World.{Env}
use labforge.Nodes.Names.{
  last_id, ResolvedNames, push_name, resolve_wanted, wanted_names, resolve_node_names_to_ids,
}

-- A node of the fleet has the name, in any case, and the identifier.
abbrev pub IsNamed : Env → List Node → String → String → Type 0
IsNamed env nodes name id =
    any (λ (n : Node). env.to_lower n.name == env.to_lower name && n.id == id) nodes ≡ true

-- No node of the fleet has the name.
abbrev pub IsUnknown : Env → List Node → String → Type 0
IsUnknown env nodes name =
    any (λ (n : Node). env.to_lower n.name == env.to_lower name) nodes ≡ false

-- The names in order, each with its identifier or among the unknown.
pub data Sorted (env : Env) (nodes : List Node) : List String → ResolvedNames → Type 0 where
  done : Sorted env nodes [] (record { ids = []; unknown = [] })
  known :
      (name id : String) {names : List String} {r : ResolvedNames}
      → IsNamed env nodes name id
      → Sorted env nodes names r
      → Sorted env nodes (name ∷ names) (record r { ids = id ∷ r.ids })
  strange :
      (name : String) {names : List String} {r : ResolvedNames}
      → IsUnknown env nodes name
      → Sorted env nodes names r
      → Sorted env nodes (name ∷ names) (record r { unknown = name ∷ r.unknown })

-- Every node has an identifier, as the store gives each row one.
abbrev pub HaveIds : List Node → Type 0
HaveIds nodes = any (λ (n : Node). n.id == "") nodes ≡ false

last_id_split :
    (b : Bool) (id : String) (found : String)
    → (if b then some id else none) ≡ some found
    → id ≡ found
last_id_split true id found h = ap (λ o. or_else o id) h
last_id_split false id found h = ground (arith, h)

module _ (env : Env) (name : String) where
  last_id-IsNamed :
      (nodes : List Node) (id : String)
      → last_id env (env.to_lower name) nodes ≡ some id
      → IsNamed env nodes name id
  unfolding last_id
  last_id-IsNamed [] id h = ground (arith, h)
  last_id-IsNamed (n ∷ ns) id h = elim (Option-cases (last_id env (env.to_lower name) ns)) [
    | inr (j, e) ↦
        let same : j ≡ id = ap (λ o. or_else o j) (rw e at h) in
        let later = last_id-IsNamed ns id (e ∙ ap (λ (x : String). some x) same) in
        ground (arith, later)
    | inl e ↦ here_named n ns id (env.to_lower n.name == env.to_lower name) refl (rw e at h)
  ]
    where
      here_named :
          (n : Node) (ns : List Node) (id : String) (b : Bool)
          → (env.to_lower n.name == env.to_lower name) ≡ b
          → (if b then some n.id else none) ≡ some id
          → IsNamed env (n ∷ ns) name id
      here_named n ns id true e h =
          let same = (eq_iff n.id id).1 (ap (λ o. or_else o n.id) h) in ground (arith, same, e)
      here_named n ns id false e h = ground (arith, h)

  last_id-IsUnknown :
      (nodes : List Node)
      → Path (Option String) (last_id env (env.to_lower name) nodes) none
      → IsUnknown env nodes name
  unfolding last_id
  last_id-IsUnknown [] h = refl
  last_id-IsUnknown (n ∷ ns) h = elim (Option-cases (last_id env (env.to_lower name) ns)) [
    | inr (j, e) ↦ some_not_none j (rw e at h)
    | inl e ↦
        missed n ns (env.to_lower n.name == env.to_lower name) refl (rw e at h)
          (last_id-IsUnknown ns e)
  ]
    where
      some_not_none : {P : Type 0} (j : String) → Path (Option String) (some j) none → P
      some_not_none j q = ground (arith, q)

      missed :
          (n : Node) (ns : List Node) (b : Bool)
          → (env.to_lower n.name == env.to_lower name) ≡ b
          → Path (Option String) (if b then some n.id else none) none
          → IsUnknown env ns name
          → IsUnknown env (n ∷ ns) name
      missed n ns true e h rest = some_not_none n.id h
      missed n ns false e h rest = ground (arith, e, rest)

-- An identifier of the fleet is not empty.
same_id : (a b : String) → (a == b) ≡ true → (a == "") ≡ false → (b == "") ≡ false
same_id a b e h = subst (λ (x : String). (x == "") ≡ false) ((eq_iff a b).0 e) h

named_id :
    (env : Env) (nodes : List Node) (name id : String)
    → HaveIds nodes
    → IsNamed env nodes name id
    → (id == "") ≡ false
named_id env [] name id h k = ground (arith, k)
named_id env (n ∷ ns) name id h k = elim (Bool-cases (n.id == id)) [
  | inl e ↦ same_id n.id id e (ground (arith, h))
  | inr e ↦ named_id env ns name id (ground (arith, h)) (ground (arith, e, k))
]

push-Sorted :
    (env : Env) (nodes : List Node) (name : String) {names : List String} {r : ResolvedNames}
    (o : Option String)
    → last_id env (env.to_lower name) nodes ≡ o
    → HaveIds nodes
    → Sorted env nodes names r
    → Sorted env nodes (name ∷ names) (push_name name o r)
push-Sorted env nodes name none e h k = strange name (last_id-IsUnknown env name nodes e) k
push-Sorted env nodes name (some id) e h k =
    let found = last_id-IsNamed env name nodes id e in
    rw (named_id env nodes name id h found) (known name id found k)

wanted-Sorted :
    (env : Env) (nodes : List Node) (names : List String)
    → HaveIds nodes
    → Sorted env nodes names (resolve_wanted env nodes names)
unfolding resolve_wanted
wanted-Sorted env nodes [] h = done
wanted-Sorted env nodes (name ∷ names) h =
    push-Sorted env nodes name (last_id env (env.to_lower name) nodes) refl h
      (wanted-Sorted env nodes names h)

-- The names that are asked for, trimmed, without empty ones and without repetition, are gone through in order:
-- each gives the identifier of a node that has this name in any case, or, when no node has it, goes among the
-- unknown ones. The identifiers of the nodes are not empty.
pub resolve_names-Sorted :
    (env : Env) (nodes : List Node) (names : List String)
    → HaveIds nodes
    → Sorted env nodes (wanted_names names) (resolve_node_names_to_ids env nodes names)
unfolding resolve_node_names_to_ids
resolve_names-Sorted env nodes names h = wanted-Sorted env nodes (wanted_names names) h
