-- ===== src/Graph/Examples.antt =====
-- internal/memory/graph/bfs.go: a memory of three insights in a row, on which the theorems are used.
use mnemon.Prelude.{
  ℕ, ◌+◌, ◌≡◌, refl, String, true, some, List, [], ◌∷◌, ◌++◌, str_eq, eq_iff, if◌then◌else◌, length,
  arith,
}
use mnemon.Graph.Bfs.{
  Edge, BfsOptions, absent, found, View, elem, full, visit_edge, visit_edges, add_node, expand,
  expand_edges, nodes, bfs_loop, bfs, edges_at, add_edge, adjacency,
}
use mnemon.Graph.Results.{Answers, bfs-Answers}
use mnemon.Graph.Views.{adjacent, adjacency-adjacent}

abbrev first : Edge
first = record { source_id = "a"; target_id = "b"; edge_type = "temporal" }

abbrev second : Edge
second = record { source_id = "b"; target_id = "c"; edge_type = "semantic" }

abbrev row : List Edge
row = first ∷ second ∷ []

abbrev view : View ℕ
view = record {
  edges_for = λ id. some (edges_at id (adjacency row []));
  insight_for =
      λ id. if str_eq id "b" then found 1 else (if str_eq id "c" then found 2 else absent);
}

abbrev opts : BfsOptions
opts = record { max_depth = 2; max_nodes = 5; edge_filter = "" }

abbrev known : List String
known = "b" ∷ "c" ∷ []

known_covers : (n : String) (i : ℕ) → view.insight_for n ≡ found i → elem n known ≡ true
known_covers n i h = ground (arith, h, eq_iff n "b", eq_iff "b" n, eq_iff n "c", eq_iff "c" n)

bfs-Answers_example : Answers view opts "a" (bfs view opts (length known + 2) "a")
bfs-Answers_example = bfs-Answers view opts "a" known known_covers

-- Both others are found, at one edge and at two.
row_found :
    bfs view opts (length known + 2) "a"
    ≡ nodes (
        record { id = "b"; insight = 1; hop = 1; via_edge = first }
        ∷ record { id = "c"; insight = 2; hop = 2; via_edge = second }
        ∷ [])
unfolding bfs bfs_loop expand expand_edges visit_edges visit_edge add_node full adjacency add_edge
row_found = refl

adjacency-adjacent_example : edges_at "b" (adjacency row []) ≡ edges_at "b" [] ++ adjacent "b" row
adjacency-adjacent_example = adjacency-adjacent "b" row []
