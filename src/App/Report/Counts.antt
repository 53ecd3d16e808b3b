-- ===== src/App/Report/Counts.antt =====
-- `report_timing`: the counting loops over a graph.
use task_bench.Base.{◌≡◌, ◌⊎◌, inl, inr, ap, true, arith, refl, lt→ltb, ltb→lt, Bool-cases}
use task_bench.Base.Int.{
  ℤ, pos, pos_part, neg_part, ltb_ℤ, ◌+ℤ◌, ◌-ℤ◌, ◌≤ℤ◌, ◌<ℤ◌, int_laws, le_of_not_ltb,
}
use task_bench.Base.Loops.{Returns, Returns-bind, for_below_inv, for_each_inv}
use task_bench.Platform.{Platform}
use task_bench.Graph.{TaskGraph, offset_at_timestep}
use task_bench.Graph.Shape.{row_before_start, row_bounds, dependence_set_bounds}
use task_bench.Graph.Sound.{IsSound, point-InRow}
use task_bench.Graph.Deps.{Interval}
use task_bench.Graph.Deps.Mirror.{InRow}
use task_bench.Graph.Deps.Buffer.{Ready, dependencies_fit}
use task_bench.Graph.Deps.Buffer.Within.{IsWithin, AllWithin}
use task_bench.App.Report.{
  Tally, tally_dep, tally_point, tally_row, tally_graph, last_row, node_span, clamp, size_of,
}
use task_bench.App.Report.Partition.{
  split_sizes, empty_sizes, clamped_bounds, node_span_bounds, clamp_lem,
}

-- The dependencies are the local and the nonlocal ones, neither of which run below zero.
abbrev pub IsSplit : Tally → Type 0
IsSplit c =
    (c.num_deps ≡ c.local_deps +ℤ c.nonlocal_deps)
    × (pos 0 ≤ℤ c.local_deps)
    × (pos 0 ≤ℤ c.nonlocal_deps)

-- A stretch that may be empty.
abbrev IsStretch : Interval → Type 0
IsStretch (first, last) = first ≤ℤ last +ℤ pos 1

-- What a dependence adds: the part before the node's span, in it and behind it.
added :
    (num local nonlocal initial here final all : ℤ)
    → num ≡ local +ℤ nonlocal
    → pos 0 ≤ℤ local
    → pos 0 ≤ℤ nonlocal
    → pos 0 ≤ℤ initial
    → pos 0 ≤ℤ here
    → pos 0 ≤ℤ final
    → initial +ℤ here +ℤ final ≡ all
    → (num +ℤ all ≡ local +ℤ here +ℤ (nonlocal +ℤ initial +ℤ final))
      × (pos 0 ≤ℤ local +ℤ here)
      × (pos 0 ≤ℤ nonlocal +ℤ initial +ℤ final)
added num local nonlocal initial here final all e hl hn hi hh hf s =
    omega (int_laws, ap pos_part e, ap neg_part e, ap pos_part s, ap neg_part s)

-- The three parts of what `clamp` has left.
parts :
    (a b s e w : ℤ)
    → (a ≡ b +ℤ pos 1) ⊎ ((a ≤ℤ b +ℤ pos 1) × (pos 0 ≤ℤ a) × (b <ℤ w))
    → pos 0 ≤ℤ s
    → s ≤ℤ e +ℤ pos 1
    → e <ℤ w
    → (a ≤ℤ b +ℤ pos 1)
      × (size_of (clamp a b (pos 0) (s -ℤ pos 1))
            +ℤ size_of (clamp a b s e)
            +ℤ size_of (clamp a b (e +ℤ pos 1) (w -ℤ pos 1))
          ≡ size_of (a, b))
parts a b s e w (inl empty) hs hse he =
    (rw empty (omega int_laws), empty_sizes a b s e w empty hs hse he)
parts a b s e w (inr (h, ha, hb)) hs hse he = (h, split_sizes a b s e w h ha hb hs hse he)

pub tally_dep-IsSplit :
    (nodes w : ℤ) (span last dep : Interval) (c : Tally)
    → pos 0 <ℤ nodes
    → (pos 0 ≤ℤ span.0) × (span.0 ≤ℤ span.1 +ℤ pos 1) × (span.1 <ℤ w)
    → IsStretch last
    → IsWithin w dep
    → IsSplit c
    → IsSplit (tally_dep nodes w span last dep c)
unfolding tally_dep
tally_dep-IsSplit nodes w (s, e) (lo, hi) (a, b) c hn (hs, hse, he) hl (ha, hab, hb) (sum, pl, pn) =
    let some_node : ltb_ℤ (pos 0) nodes ≡ true = lt→ltb _ _ (omega arith) in
    let x = (clamp a b lo hi).0 in
    let y = (clamp a b lo hi).1 in
    let (h, all) = parts x y s e w (clamped_bounds a b lo hi w hab hl ha hb) hs hse he in
    rw some_node (
      added c.num_deps c.local_deps c.nonlocal_deps _ _ _ _ sum pl pn
        (clamp_lem x y (pos 0) (s -ℤ pos 1) h (omega int_laws)).1 (clamp_lem x y s e h hse).1
        (clamp_lem x y (e +ℤ pos 1) (w -ℤ pos 1) h (omega int_laws)).1 all)

row-IsStretch : (o w : ℤ) → pos 0 <ℤ w → IsStretch (o, o +ℤ w -ℤ pos 1)
row-IsStretch o w h = omega int_laws

row_end : (o w : ℤ) → pos 0 <ℤ w → o ≤ℤ o +ℤ w
row_end o w h = omega int_laws

module _ {D : Type 0} ⦃fl : Platform D⦄ (nodes : ℤ) (g : TaskGraph D) (hn : pos 0 <ℤ nodes)
    (sound : IsSound g) where
  tally_point-IsSplit :
      (dset p : ℤ) (last : Interval) (c : Tally)
      → Ready g.dependence g dset
      → InRow g p
      → IsStretch last
      → IsSplit c
      → Returns (tally_point nodes g dset last p c) IsSplit
  unfolding tally_point
  tally_point-IsSplit dset p last c ready hp hl split =
      let (deps, _, call, _, _, inside) = dependencies_fit g dset p hp ready in
      Returns-bind (λ ds. AllWithin g.max_width ds) IsSplit _ _ (deps, call, inside)
        λ ds all.
          let (c', e, kept) =
            for_each_inv (λ rest t. AllWithin g.max_width rest × IsSplit t) _ ds c
              (λ dep rest t ((within, others), k). (
                _,
                refl,
                (
                  others,
                  tally_dep-IsSplit nodes g.max_width (node_span nodes g.max_width p) last dep t hn
                      (node_span_bounds nodes g.max_width p hn hp.0 hp.1) hl within k,
                ),
              ))
              (all, split) in
          (c', e, kept.1)

  last_row-IsStretch : (t : ℤ) → pos 0 ≤ℤ t → t <ℤ g.timesteps → IsStretch (last_row g t)
  unfolding last_row
  last_row-IsStretch t ht hT = elim (Bool-cases (ltb_ℤ (t -ℤ pos 1) (pos 0))) [
    | inl first ↦
        let (none_before, no_width) = row_before_start g (t -ℤ pos 1) (ltb→lt _ _ first) in
        rw (none_before, no_width) (omega int_laws)
    | inr later ↦
        let bounds =
          row_bounds g (t -ℤ pos 1) (le_of_not_ltb (t -ℤ pos 1) (pos 0) later) (omega int_laws)
            sound.0 in
        row-IsStretch _ _ bounds.1
  ]

  tally_row-IsSplit :
      (t : ℤ) (c : Tally)
      → pos 0 ≤ℤ t
      → t <ℤ g.timesteps
      → IsSplit c
      → Returns (tally_row nodes g t c) IsSplit
  unfolding tally_row
  tally_row-IsSplit t c ht hT split =
      let (dset, set, low, high) = dependence_set_bounds g t ht sound.1 in
      let (_, some_width, _) = row_bounds g t ht hT sound.0 in
      Returns-bind (λ d. Ready g.dependence g d) IsSplit _ _ (dset, set, sound.2 dset low high)
        λ d ready.
          for_below_inv (λ _. IsSplit) _ (offset_at_timestep g t) _ _ (row_end _ _ some_width)
            (λ p c' above below k.
              tally_point-IsSplit d p (last_row g t) c' ready
                (point-InRow g t p sound.0 ht hT above below) (last_row-IsStretch t ht hT) k)
            split

  -- With nodes to estimate for, the counting loops over a sound graph return, and the number of
  -- dependencies is the sum of the local and the nonlocal ones, neither of them negative.
  pub tally_graph_splits : pos 0 ≤ℤ g.timesteps → Returns (tally_graph nodes g) IsSplit
  unfolding tally_graph
  tally_graph_splits h =
      for_below_inv (λ _. IsSplit) _ (pos 0) g.timesteps _ h
        (λ t c ht hT k. tally_row-IsSplit t c ht hT k) (omega int_laws, omega arith, omega arith)
