-- ===== src/Graph/Walks.antt =====
-- internal/memory/graph/bfs.go: what its results are, and that every step keeps it so.
use mnemon.Prelude.{
  ℕ, suc, ◌+◌, ◌≤◌, ◌<◌, ◌≡◌, ◌≢◌, refl, sym, ap, ◌∙◌, String, true, false, not, ◌&&◌, ◌||◌, Option,
  none, some, List, [], ◌∷◌, ◌++◌, str_eq, eq_iff, leb, if-cases, length, length-append, one_if,
  All, arith,
}
use mathlib.Core.List.{append_assoc}
use mnemon.Graph.Bfs.{
  Edge, BfsNode, BfsOptions, Found, broken, absent, found, View, Entry, Search, elem, neighbor,
  passes, full, Visit, goes_on, halts, fails, visit, keep, enqueue, add_node, visit_edge,
  after_visit, visit_edges, expand_edges, expand,
}

All-snoc :
    {A : Type 0} (P : A → Type 0) (xs : List A) (x : A) → All P xs → P x → All P (xs ++ (x ∷ []))
All-snoc P [] x h p = (p, tt)
All-snoc P (y ∷ ys) x h p = (h.0, All-snoc P ys x h.1 p)

-- How often an identifier is among the results.
abbrev pub count_id : {I : Type 0} → String → List (BfsNode I) → ℕ
count_id x [] = 0
count_id x (node ∷ rest) = one_if (str_eq node.id x) + count_id x rest

count_id-snoc :
    {I : Type 0} (x : String) (ns : List (BfsNode I)) (node : BfsNode I)
    → count_id x (ns ++ (node ∷ [])) ≡ count_id x ns + one_if (str_eq node.id x)
count_id-snoc x [] node = omega arith
count_id-snoc x (n ∷ ns) node = omega (arith, count_id-snoc x ns node)

-- The nodes at the end of a walk of that many edges, each of which passes the filter.
pub data Walk {I : Type 0} (view : View I) (opts : BfsOptions) (start : String)
    : ℕ → String → Type 0 where
  stands : Walk view opts start 0 start
  along :
      {h : ℕ} {a : String} (before : List Edge) (e : Edge) (after : List Edge)
      → Walk view opts start h a
      → view.edges_for a ≡ some (before ++ (e ∷ after))
      → passes opts e ≡ true
      → Walk view opts start (suc h) (neighbor a e)

-- A result: the insight of its identifier, at the end of a walk within the depth.
pub record Good {I : Type 0} (view : View I) (opts : BfsOptions) (start : String) (node : BfsNode I)
    : Type 0 where
  pub looked_up : view.insight_for node.id ≡ found node.insight
  pub reached : Walk view opts start node.hop node.id
  pub within : (0 < node.hop) × (node.hop ≤ opts.max_depth)

module _ {I : Type 0} (view : View I) (opts : BfsOptions) (start : String) where
  pub record IsSound (s : Search I) : Type 0 where
    pub good : All (Good view opts start) s.result
    pub once :
        (x : String) → count_id x s.result ≤ one_if (elem x s.visited && not (str_eq start x))
    pub queued : All (λ (q : Entry). Walk view opts start q.hop q.id) s.queue
    pub started : elem start s.visited ≡ true
    pub bounded : 0 < opts.max_nodes → length s.result ≤ opts.max_nodes

  -- The store does not always answer without an error.
  abbrev pub Faulty : Type 0
  Faulty =
      ((id : String) → view.edges_for id ≢ none) → ((n : String) → view.insight_for n ≢ broken) → ⊥

  -- The searches that a visit goes on with are not full.
  abbrev pub Visited : Visit view opts → Type 0
  Visited (goes_on s) = IsSound s × (full view opts s.result ≡ false)
  Visited (halts s) = IsSound s
  Visited fails = Faulty

  abbrev pub Expanded : Option (Search I) → Type 0
  Expanded none = Faulty
  Expanded (some s) = IsSound s

  visit-IsSound : (n : String) (s : Search I) → IsSound s → IsSound (visit view opts n s)
  visit-IsSound n s k = record {
    good = k.good;
    once = λ x. ground (arith, k.once x);
    queued = k.queued;
    started = ground (arith, k.started);
    bounded = k.bounded;
  }

  -- A new result, of a node that was not visited before.
  keep-IsSound :
      (node : BfsNode I) (s : Search I)
      → IsSound s
      → elem node.id s.visited ≡ false
      → full view opts s.result ≡ false
      → Good view opts start node
      → IsSound (keep view opts node (visit view opts node.id s))
  unfolding full
  keep-IsSound node s k new room g = record {
    good = All-snoc (Good view opts start) s.result node k.good g;
    once = λ x. ground (
      arith,
      k.once x,
      k.started,
      new,
      count_id-snoc x s.result node,
      eq_iff node.id x,
      eq_iff start x,
    );
    queued = k.queued;
    started = ground (arith, k.started);
    bounded = ground (arith, room, length-append s.result (node ∷ []), k.bounded);
  }

  enqueue-IsSound :
      (q : Entry) (s : Search I)
      → IsSound s
      → Walk view opts start q.hop q.id
      → IsSound (enqueue view opts q s)
  enqueue-IsSound q s k w = record {
    good = k.good;
    once = k.once;
    queued = All-snoc (λ (p : Entry). Walk view opts start p.hop p.id) s.queue q k.queued w;
    started = k.started;
    bounded = k.bounded;
  }

  after_visit-Expanded :
      (v : Visit view opts) (next : Search I → Option (Search I))
      → Visited v
      → ((t : Search I) → IsSound t → full view opts t.result ≡ false → Expanded (next t))
      → Expanded (after_visit view opts v next)
  after_visit-Expanded (goes_on s) next (k, room) more = more s k room
  after_visit-Expanded (halts s) next k more = k
  after_visit-Expanded fails next k more = k

  module _ (cur : Entry) (from : Walk view opts start cur.hop cur.id)
      (deep : leb opts.max_depth cur.hop ≡ false) where
    add_node-Visited :
        (e : Edge)
        → Walk view opts start (suc cur.hop) (neighbor cur.id e)
        → (o : Found I) (s : Search I) → view.insight_for (neighbor cur.id e) ≡ o
        → elem (neighbor cur.id e) s.visited ≡ false
        → IsSound s
        → full view opts s.result ≡ false
        → Visited
            (add_node view opts cur e (neighbor cur.id e) o (visit view opts (neighbor cur.id e) s))
    unfolding add_node
    add_node-Visited e to broken s looked new k room =
        λ edges insights. insights (neighbor cur.id e) looked
    add_node-Visited e to absent s looked new k room = (visit-IsSound (neighbor cur.id e) s k, room)
    add_node-Visited e to (found i) s looked new k room =
        let n = neighbor cur.id e in
        let node : BfsNode I = record { id = n; insight = i; hop = suc cur.hop; via_edge = e } in
        let q : Entry = record { id = n; hop = suc cur.hop } in
        let t = keep view opts node (visit view opts n s) in
        let l : IsSound t =
          keep-IsSound node s k new room
            (record { looked_up = looked; reached = to; within = ground (arith, deep) }) in
        if-cases Visited (full view opts t.result) (halts t) (goes_on (enqueue view opts q t))
          (λ h. l) (λ h. (enqueue-IsSound q t l to, h))

    -- One edge of the node that is expanded.
    visit_edge-Visited :
        (before : List Edge) (e : Edge) (after : List Edge)
        → view.edges_for cur.id ≡ some (before ++ (e ∷ after))
        → (s : Search I) → IsSound s
        → full view opts s.result ≡ false
        → Visited (visit_edge view opts cur e s)
    unfolding visit_edge
    visit_edge-Visited before e after edges s k room =
        let n = neighbor cur.id e in
        if-cases Visited (not (passes opts e) || elem n s.visited) (goes_on s)
          (add_node view opts cur e n (view.insight_for n) (visit view opts n s)) (λ h. (k, room))
          (λ h.
            add_node-Visited e (along before e after from edges (ground (arith, h)))
              (view.insight_for n) s refl (ground (arith, h)) k room)

    visit_edges-Expanded :
        (before es : List Edge) (s : Search I)
        → view.edges_for cur.id ≡ some (before ++ es)
        → IsSound s
        → full view opts s.result ≡ false
        → Expanded (visit_edges view opts cur es s)
    unfolding visit_edges
    visit_edges-Expanded before [] s edges k room = k
    visit_edges-Expanded before (e ∷ es) s edges k room =
        after_visit-Expanded (visit_edge view opts cur e s) (λ t. visit_edges view opts cur es t)
          (visit_edge-Visited before e es edges s k room)
          (λ t l more.
            visit_edges-Expanded (before ++ (e ∷ [])) es t
              (edges ∙ ap (λ (x : List Edge). some x) (sym (append_assoc before (e ∷ []) es))) l
              more)

    expand_edges-Expanded :
        (o : Option (List Edge))
        → view.edges_for cur.id ≡ o
        → (s : Search I) → IsSound s
        → full view opts s.result ≡ false
        → Expanded (expand_edges view opts cur o s)
    unfolding expand_edges
    expand_edges-Expanded none edges s k room = λ answers insights. answers cur.id edges
    expand_edges-Expanded (some es) edges s k room = visit_edges-Expanded [] es s edges k room

  pub expand-Expanded :
      (cur : Entry) (s : Search I)
      → Walk view opts start cur.hop cur.id
      → IsSound s
      → full view opts s.result ≡ false
      → Expanded (expand view opts cur s)
  unfolding expand
  expand-Expanded cur s from k room =
      if-cases Expanded (leb opts.max_depth cur.hop) (some s)
        (expand_edges view opts cur (view.edges_for cur.id) s) (λ h. k)
        (λ deep. expand_edges-Expanded cur from deep (view.edges_for cur.id) refl s k room)
