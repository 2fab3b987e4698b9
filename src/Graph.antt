-- ===== src/Graph.antt =====
-- internal/memory/graph: the search of a memory's neighbourhood.
pub mod Bfs
mod Walks
mod Ends
mod Results
mod Views
mod Examples
