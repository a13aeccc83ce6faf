-- ===== src/Compiler/Graph/Edges.antt =====
-- The nodes of a workflow, `node_edges`, `graph_edges`, and the adjacency lists that
-- `validate_graph` builds.
use multiverse.Base.{
  String, List, [], ◌∷◌, ◌++◌, map, Option, none, some, Bool, true, false, str_eq, if◌then◌else◌,
}
use multiverse.Base.Member.{In, has}

-- What the edges of a node come from; `next` and `default` are ids.
pub data NodeType : Type 0 where
  call workflow parallel repeat : String → NodeType
  switch : List String → String → NodeType
  end : NodeType

pub record Node : Type 0 where
  pub type : NodeType
  pub on_error : Option String

abbrev pub Nodes : Type 0
Nodes = List (String × Node)

abbrev pub Adjacency : Type 0
Adjacency = List (String × List String)

-- `node.type == "end"`
abbrev pub is_end : Node → Bool
is_end n = elim n.type [ end ↦ true | _ ↦ false ]

abbrev pub type_edges : String → NodeType → List (String × String)
type_edges v (call next) = (v, next) ∷ []
type_edges v (workflow next) = (v, next) ∷ []
type_edges v (parallel next) = (v, next) ∷ []
type_edges v (repeat next) = (v, next) ∷ []
type_edges v (switch cases default) = map (λ next. (v, next)) cases ++ (v, default) ∷ []
type_edges v end = []

abbrev pub error_edges : String → Option String → List (String × String)
error_edges v none = []
error_edges v (some w) = (v, w) ∷ []

unfoldable pub node_edges : String → Node → List (String × String)
node_edges v n = type_edges v n.type ++ error_edges v n.on_error

unfoldable pub graph_edges : Nodes → List (String × String)
unfolding node_edges
graph_edges [] = []
graph_edges ((v, n) ∷ ns) = node_edges v n ++ graph_edges ns

abbrev pub keys {ℓ} : {A : Type ℓ} → List (String × A) → List String
keys [] = []
keys ((k, a) ∷ m) = k ∷ keys m

-- `adjacency.get(v, [])`
unfoldable pub targets : Adjacency → String → List String
targets [] v = []
targets ((k, ts) ∷ m) v = if str_eq k v then ts else targets m v

-- `adjacency[source].append(target)`
unfoldable pub add_edge : String → String → Adjacency → Adjacency
add_edge s t [] = []
add_edge s t ((k, ts) ∷ m) = if str_eq k s then (k, ts ++ t ∷ []) ∷ m else (k, ts) ∷ add_edge s t m

-- `{node_id: [] for node_id in nodes}`
unfoldable pub no_edges : Nodes → Adjacency
no_edges [] = []
no_edges ((v, n) ∷ ns) = (v, []) ∷ no_edges ns

-- the loop over the edges, as far as it fills the adjacency lists
unfoldable pub add_edges : Nodes → List (String × String) → Adjacency → Adjacency
unfolding has add_edge
add_edges ns [] m = m
add_edges ns ((s, t) ∷ es) m = add_edges ns es (if has (keys ns) t then add_edge s t m else m)

unfoldable pub adjacency : Nodes → Adjacency
unfolding no_edges add_edges graph_edges
adjacency ns = add_edges ns (graph_edges ns) (no_edges ns)

-- An edge of the adjacency lists.
abbrev pub Next : Adjacency → String → String → Type 0
Next m u v = In v (targets m u)
