-- ===== src/Graph/Bfs.antt =====
-- internal/memory/graph/bfs.go: breadth-first search. What the view of the store answers is an
-- argument; identifiers and edge types are strings.
use mnemon.Prelude.{
  ℕ, zero, suc, String, Bool, false, not, ◌&&◌, ◌||◌, Option, none, some, List, [], ◌∷◌, ◌++◌,
  str_eq, ltb, leb, if◌then◌else◌, length,
}
use mnemon.Prelude.Dict.{lookup, insert}

pub record Edge : Type 0 where
  pub source_id : String
  pub target_id : String
  pub edge_type : String

-- A result, with the identifier that it was found under.
pub record BfsNode (I : Type 0) : Type 0 where
  pub id : String
  pub insight : I
  pub hop : ℕ
  pub via_edge : Edge

pub record BfsOptions : Type 0 where
  pub max_depth : ℕ
  pub max_nodes : ℕ
  pub edge_filter : String

-- What the view answers about an insight: an error other than no row, none, or the insight.
pub data Found (I : Type 0) : Type 0 where
  broken : Found I
  absent : Found I
  found : I → Found I

-- bfsView; an error of `edges_for` is `none`.
pub record View (I : Type 0) : Type 0 where
  pub edges_for : String → Option (List Edge)
  pub insight_for : String → Found I

pub record Entry : Type 0 where
  pub id : String
  pub hop : ℕ

pub record Search (I : Type 0) : Type 0 where
  pub visited : List String
  pub queue : List Entry
  pub result : List (BfsNode I)

abbrev pub elem : String → List String → Bool
elem x [] = false
elem x (y ∷ ys) = str_eq y x || elem x ys

abbrev pub neighbor : String → Edge → String
neighbor id e = if str_eq e.target_id id then e.source_id else e.target_id

abbrev pub passes : BfsOptions → Edge → Bool
passes opts e = str_eq opts.edge_filter "" || str_eq e.edge_type opts.edge_filter

module _ {I : Type 0} (view : View I) (opts : BfsOptions) where
  unfoldable pub full : List (BfsNode I) → Bool
  full nodes = ltb 0 opts.max_nodes && leb opts.max_nodes (length nodes)

  -- How the loop over the edges goes on: with the next edge, not at all, or with the error.
  pub data Visit : Type 0 where
    goes_on halts : Search I → Visit
    fails : Visit

  abbrev pub visit : String → Search I → Search I
  visit n s = record s { visited = n ∷ s.visited }

  abbrev pub keep : BfsNode I → Search I → Search I
  keep node s = record s { result = s.result ++ (node ∷ []) }

  abbrev pub enqueue : Entry → Search I → Search I
  enqueue entry s = record s { queue = s.queue ++ (entry ∷ []) }

  unfoldable pub add_node : Entry → Edge → String → Found I → Search I → Visit
  add_node cur e n broken s = fails
  add_node cur e n absent s = goes_on s
  add_node cur e n (found i) s =
      let t = keep (record { id = n; insight = i; hop = suc cur.hop; via_edge = e }) s in
      if full t.result then halts t else goes_on (enqueue (record { id = n; hop = suc cur.hop }) t)

  unfoldable pub visit_edge : Entry → Edge → Search I → Visit
  visit_edge cur e s =
      let n = neighbor cur.id e in
      if not (passes opts e) || elem n s.visited
      then goes_on s
      else add_node cur e n (view.insight_for n) (visit n s)

  abbrev pub after_visit : Visit → (Search I → Option (Search I)) → Option (Search I)
  after_visit (goes_on s) next = next s
  after_visit (halts s) next = some s
  after_visit fails next = none

  unfoldable pub visit_edges : Entry → List Edge → Search I → Option (Search I)
  visit_edges cur [] s = some s
  visit_edges cur (e ∷ es) s = after_visit (visit_edge cur e s) (λ t. visit_edges cur es t)

  unfoldable pub expand_edges : Entry → Option (List Edge) → Search I → Option (Search I)
  expand_edges cur none s = none
  expand_edges cur (some es) s = visit_edges cur es s

  -- A node taken off the queue.
  unfoldable pub expand : Entry → Search I → Option (Search I)
  expand cur s =
      if leb opts.max_depth cur.hop then some s else expand_edges cur (view.edges_for cur.id) s

  -- `stuck` is no outcome of the code: the loop ran out of fuel. An error of the store gives no nodes.
  pub data Outcome : Type 0 where
    nodes : List (BfsNode I) → Outcome
    failed stuck : Outcome

  abbrev pub after_expand : Option (Search I) → (Search I → Outcome) → Outcome
  after_expand none next = failed
  after_expand (some s) next = next s

  abbrev pub loop_queue : List Entry → Search I → (Search I → Outcome) → Outcome
  loop_queue [] s next = nodes s.result
  loop_queue (cur ∷ rest) s next =
      if full s.result
      then nodes s.result
      else after_expand (expand cur (record s { queue = rest })) next

  unfoldable pub bfs_loop : ℕ → Search I → Outcome
  bfs_loop zero s = stuck
  bfs_loop (suc fuel) s = loop_queue s.queue s (λ t. bfs_loop fuel t)

  abbrev pub start_search : String → Search I
  start_search id = record {
    visited = id ∷ [];
    queue = record { id = id; hop = 0 } ∷ [];
    result = [];
  }

  unfoldable pub bfs : ℕ → String → Outcome
  bfs fuel id = if leb opts.max_depth 0 then nodes [] else bfs_loop fuel (start_search id)

-- newBFSView's map of the edges of each node, when it reads them all at once.
abbrev pub edges_at : String → List (String × List Edge) → List Edge
edges_at id adj = elim (lookup id adj) [ none ↦ [] | some es ↦ es ]

abbrev pub add_at : String → Edge → List (String × List Edge) → List (String × List Edge)
add_at id e adj = insert id (edges_at id adj ++ (e ∷ [])) adj

unfoldable pub add_edge : Edge → List (String × List Edge) → List (String × List Edge)
add_edge e adj =
    let from = add_at e.source_id e adj in
    if str_eq e.source_id e.target_id then from else add_at e.target_id e from

unfoldable pub adjacency : List Edge → List (String × List Edge) → List (String × List Edge)
adjacency [] adj = adj
adjacency (e ∷ es) adj = adjacency es (add_edge e adj)
