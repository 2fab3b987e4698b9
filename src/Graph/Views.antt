-- ===== src/Graph/Views.antt =====
-- internal/memory/graph/bfs.go, newBFSView: the edges that are read at once.
use mnemon.Prelude.{
  ◌≡◌, sym, String, List, [], ◌∷◌, ◌++◌, str_eq, ◌||◌, eq_iff, if◌then◌else◌, arith,
}
use mathlib.Core.List.{append_assoc, append-nil}
use mnemon.Prelude.Dict.{lookup-insert}
use mnemon.Graph.Bfs.{Edge, edges_at, add_at, add_edge, adjacency}

-- What newBFSView is to keep at a node: the edges from it and to it, each once, in their order.
abbrev pub adjacent : String → List Edge → List Edge
adjacent id [] = []
adjacent id (e ∷ es) =
    let rest = adjacent id es in
    if str_eq e.source_id id || str_eq e.target_id id then e ∷ rest else rest

edges_at-add_at :
    (id k : String) (e : Edge) (adj : List (String × List Edge))
    → edges_at id (add_at k e adj)
      ≡ (if str_eq k id then edges_at k adj ++ (e ∷ []) else edges_at id adj)
edges_at-add_at id k e adj = ground (arith, lookup-insert k id (edges_at k adj ++ (e ∷ [])) adj)

edges_at-add_edge :
    (id : String) (e : Edge) (adj : List (String × List Edge))
    → edges_at id (add_edge e adj) ≡ edges_at id adj ++ adjacent id (e ∷ [])
unfolding add_edge
edges_at-add_edge id e adj = ground (
  arith,
  edges_at-add_at id e.source_id e adj,
  edges_at-add_at id e.target_id e (add_at e.source_id e adj),
  edges_at-add_at e.target_id e.source_id e adj,
  eq_iff e.source_id id,
  eq_iff e.target_id id,
  eq_iff e.source_id e.target_id,
  append-nil (edges_at id adj),
)

-- The map gives a node the edges from it and to it, each once, in the order in which they were read.
pub adjacency-adjacent :
    (id : String) (es : List Edge) (adj : List (String × List Edge))
    → edges_at id (adjacency es adj) ≡ edges_at id adj ++ adjacent id es
unfolding adjacency
adjacency-adjacent id [] adj = sym (append-nil (edges_at id adj))
adjacency-adjacent id (e ∷ es) adj = ground (
  arith,
  adjacency-adjacent id es (add_edge e adj),
  edges_at-add_edge id e adj,
  append_assoc (edges_at id adj) (adjacent id (e ∷ [])) (adjacent id es),
  append-nil (edges_at id adj),
)
