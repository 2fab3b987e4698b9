-- ===== src/Graph/Ends.antt =====
-- internal/memory/graph/bfs.go: the search ends, since a node is queued at most once.
use mnemon.Prelude.{
  ℕ, suc, ◌+◌, ◌≤◌, ◌<◌, ◌≡◌, refl, String, true, false, not, ◌||◌, Option, none, some, List, [],
  ◌∷◌, eq_iff, leb, if-cases, length, length-append, one_if, arith,
}
use mnemon.Graph.Bfs.{
  Edge, BfsNode, BfsOptions, Found, broken, absent, found, View, Entry, Search, elem, neighbor,
  passes, full, Visit, goes_on, halts, fails, visit, keep, enqueue, add_node, visit_edge,
  after_visit, visit_edges, expand_edges, expand,
}

-- How many of the identifiers were not visited.
abbrev pub unvisited : List String → List String → ℕ
unvisited [] vis = 0
unvisited (u ∷ us) vis = one_if (not (elem u vis)) + unvisited us vis

pub unvisited_bound : (us vis : List String) → unvisited us vis ≤ length us
unvisited_bound [] vis = omega arith
unvisited_bound (u ∷ us) vis = ground (arith, unvisited_bound us vis)

unvisited-le :
    (us : List String) (n : String) (vis : List String) → unvisited us (n ∷ vis) ≤ unvisited us vis
unvisited-le [] n vis = omega arith
unvisited-le (u ∷ us) n vis = ground (arith, unvisited-le us n vis)

unvisited-lt :
    (us : List String) (n : String) (vis : List String)
    → elem n us ≡ true
    → elem n vis ≡ false
    → unvisited us (n ∷ vis) < unvisited us vis
unvisited-lt [] n vis h new = absurd (ground (arith, h))
unvisited-lt (u ∷ us) n vis h new =
    ground (arith, h, new, eq_iff u n, eq_iff n u, unvisited-lt us n vis, unvisited-le us n vis)

module _ {I : Type 0} (view : View I) (opts : BfsOptions) (known : List String)
    (covers : (n : String) (i : I) → view.insight_for n ≡ found i → elem n known ≡ true) where
  -- What is left to take off the queue, now or later.
  abbrev pub left : Search I → ℕ
  left s = unvisited known s.visited + length s.queue

  abbrev VisitLe : ℕ → Visit view opts → Type 0
  VisitLe m (goes_on s) = left s ≤ m
  VisitLe m (halts s) = left s ≤ m
  VisitLe m fails = Unit

  abbrev pub ExpandLe : ℕ → Option (Search I) → Type 0
  ExpandLe m none = Unit
  ExpandLe m (some s) = left s ≤ m

  add_node-VisitLe :
      (cur : Entry) (e : Edge) (n : String) (o : Found I) (s : Search I)
      → view.insight_for n ≡ o
      → elem n s.visited ≡ false
      → VisitLe (left s) (add_node view opts cur e n o (visit view opts n s))
  unfolding add_node
  add_node-VisitLe cur e n broken s looked new = tt
  add_node-VisitLe cur e n absent s looked new = omega (arith, unvisited-le known n s.visited)
  add_node-VisitLe cur e n (found i) s looked new =
      let node : BfsNode I = record { id = n; insight = i; hop = suc cur.hop; via_edge = e } in
      let q : Entry = record { id = n; hop = suc cur.hop } in
      let t = keep view opts node (visit view opts n s) in
      if-cases (VisitLe (left s)) (full view opts t.result) (halts t)
        (goes_on (enqueue view opts q t)) (λ h. omega (arith, unvisited-le known n s.visited))
        (λ h. omega (
          arith,
          unvisited-lt known n s.visited (covers n i looked) new,
          length-append s.queue (q ∷ []),
        ))

  visit_edge-VisitLe :
      (cur : Entry) (e : Edge) (s : Search I) → VisitLe (left s) (visit_edge view opts cur e s)
  unfolding visit_edge
  visit_edge-VisitLe cur e s =
      let n = neighbor cur.id e in
      if-cases (VisitLe (left s)) (not (passes opts e) || elem n s.visited) (goes_on s)
        (add_node view opts cur e n (view.insight_for n) (visit view opts n s)) (λ h. omega arith)
        (λ h. add_node-VisitLe cur e n (view.insight_for n) s refl (ground (arith, h)))

  after_visit-ExpandLe :
      (m : ℕ) (v : Visit view opts) (next : Search I → Option (Search I))
      → VisitLe m v
      → ((t : Search I) → left t ≤ m → ExpandLe m (next t))
      → ExpandLe m (after_visit view opts v next)
  after_visit-ExpandLe m (goes_on s) next h more = more s h
  after_visit-ExpandLe m (halts s) next h more = h
  after_visit-ExpandLe m fails next h more = tt

  VisitLe-le : (m n : ℕ) (v : Visit view opts) → m ≤ n → VisitLe m v → VisitLe n v
  VisitLe-le m n (goes_on s) h k = omega (arith, h, k)
  VisitLe-le m n (halts s) h k = omega (arith, h, k)
  VisitLe-le m n fails h k = tt

  visit_edges-ExpandLe :
      (m : ℕ) (cur : Entry) (es : List Edge) (s : Search I)
      → left s ≤ m
      → ExpandLe m (visit_edges view opts cur es s)
  unfolding visit_edges
  visit_edges-ExpandLe m cur [] s h = h
  visit_edges-ExpandLe m cur (e ∷ es) s h =
      after_visit-ExpandLe m (visit_edge view opts cur e s) (λ t. visit_edges view opts cur es t)
        (VisitLe-le (left s) m (visit_edge view opts cur e s) h (visit_edge-VisitLe cur e s))
        (λ t le. visit_edges-ExpandLe m cur es t le)

  expand_edges-ExpandLe :
      (cur : Entry) (o : Option (List Edge)) (s : Search I)
      → ExpandLe (left s) (expand_edges view opts cur o s)
  unfolding expand_edges
  expand_edges-ExpandLe cur none s = tt
  expand_edges-ExpandLe cur (some es) s = visit_edges-ExpandLe (left s) cur es s (omega arith)

  pub expand-ExpandLe : (cur : Entry) (s : Search I) → ExpandLe (left s) (expand view opts cur s)
  unfolding expand
  expand-ExpandLe cur s =
      if-cases (ExpandLe (left s)) (leb opts.max_depth cur.hop) (some s)
        (expand_edges view opts cur (view.edges_for cur.id) s) (λ h. omega arith)
        (λ h. expand_edges-ExpandLe cur (view.edges_for cur.id) s)
