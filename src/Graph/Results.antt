-- ===== src/Graph/Results.antt =====
-- internal/memory/graph/bfs.go: what the search returns.
use mnemon.Prelude.{
  ℕ, zero, suc, ◌+◌, ◌≤◌, ◌<◌, ◌≡◌, refl, subst, ap, String, true, Option, none, some, List, [],
  ◌∷◌, eq_iff, leb, if-cases, length, All, arith,
}
use mnemon.Graph.Bfs.{
  BfsOptions, found, View, Entry, Search, elem, full, expand, Outcome, nodes, failed, stuck,
  after_expand, loop_queue, bfs_loop, start_search, bfs,
}
use mnemon.Graph.Walks.{Faulty, Good, Walk, stands, IsSound, Expanded, expand-Expanded, count_id}
use mnemon.Graph.Ends.{unvisited_bound, left, ExpandLe, expand-ExpandLe}

module _ {I : Type 0} (view : View I) (opts : BfsOptions) (start : String) where
  -- Nodes are distinct, not the start, within the limits, and ends of walks; `stuck` is excluded.
  abbrev pub Answers : Outcome view opts → Type 0
  Answers (nodes ns) =
      All (Good view opts start) ns
      × ((x : String) → count_id x ns ≤ 1)
      × (count_id start ns ≡ 0)
      × (0 < opts.max_nodes → length ns ≤ opts.max_nodes)
  Answers failed = Faulty view opts start
  Answers stuck = ⊥

  IsSound-Answers : (s : Search I) → IsSound view opts start s → Answers (nodes s.result)
  IsSound-Answers s k = (
    k.good,
    λ x. ground (arith, k.once x),
    ground (arith, k.once start, eq_iff start start),
    k.bounded,
  )

  start-IsSound : IsSound view opts start (start_search view opts start)
  start-IsSound = record {
    good = tt;
    once = λ x. omega arith;
    queued = (stands, tt);
    started = ground (arith, eq_iff start start);
    bounded = λ h. omega arith;
  }

  module _ (known : List String)
      (covers : (n : String) (i : I) → view.insight_for n ≡ found i → elem n known ≡ true) where
    after_expand-Answers :
        (m : ℕ) (o : Option (Search I)) (next : Search I → Outcome view opts)
        → Expanded view opts start o
        → ExpandLe view opts known covers m o
        → ((t : Search I)
            → IsSound view opts start t
            → left view opts known covers t ≤ m
            → Answers (next t))
        → Answers (after_expand view opts o next)
    after_expand-Answers m none next k h more = k
    after_expand-Answers m (some t) next k h more = more t k h

    loop_queue-Answers :
        (queue : List Entry) (s : Search I) (m : ℕ) (next : Search I → Outcome view opts)
        → IsSound view opts start s
        → s.queue ≡ queue
        → left view opts known covers s ≤ m
        → ((t : Search I)
            → IsSound view opts start t
            → left view opts known covers t < m
            → Answers (next t))
        → Answers (loop_queue view opts queue s next)
    loop_queue-Answers [] s m next k e h more = IsSound-Answers s k
    loop_queue-Answers (cur ∷ rest) s m next k e h more =
        let walks =
          subst (λ (q : List Entry). All (λ (p : Entry). Walk view opts start p.hop p.id) q) e
            k.queued in
        let popped : Search I = record s { queue = rest } in
        let l : IsSound view opts start popped = record {
          good = k.good;
          once = k.once;
          queued = walks.1;
          started = k.started;
          bounded = k.bounded;
        } in
        let shorter : left view opts known covers popped < m =
          omega (arith, h, ap (λ (q : List Entry). length q) e) in
        if-cases Answers (full view opts s.result) (nodes s.result)
          (after_expand view opts (expand view opts cur popped) next) (λ room. IsSound-Answers s k)
          (λ room.
            after_expand-Answers (left view opts known covers popped) (expand view opts cur popped)
              next (expand-Expanded view opts start cur popped walks.0 l room)
              (expand-ExpandLe view opts known covers cur popped)
              (λ t sound le. more t sound (omega (arith, le, shorter))))

    bfs_loop-Answers :
        (fuel : ℕ) (s : Search I)
        → IsSound view opts start s
        → left view opts known covers s < fuel
        → Answers (bfs_loop view opts fuel s)
    unfolding bfs_loop
    bfs_loop-Answers zero s k h = absurd (omega (arith, h))
    bfs_loop-Answers (suc fuel) s k h =
        loop_queue-Answers s.queue s fuel (λ t. bfs_loop view opts fuel t) k refl (omega (arith, h))
          (λ t sound le. bfs_loop-Answers fuel t sound le)

    -- As many rounds as there are identifiers whose insights the store has, and two more, are enough for
    -- the search: unless the store fails at some call, it returns distinct nodes other than the start, no more than
    -- MaxNodes when that is set, each with the store's insight at the end of a walk of its hop's number of
    -- edges that pass the filter, and with a hop from 1 to MaxDepth.
    pub bfs-Answers : Answers (bfs view opts (length known + 2) start)
    unfolding bfs
    bfs-Answers =
        if-cases Answers (leb opts.max_depth 0) (nodes [])
          (bfs_loop view opts (length known + 2) (start_search view opts start))
          (λ h. (tt, (λ x. omega arith), refl, (λ k. omega arith)))
          (λ h.
            bfs_loop-Answers (length known + 2) (start_search view opts start) start-IsSound
              (omega (arith, unvisited_bound known (start ∷ []))))
