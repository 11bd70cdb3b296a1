-- ===== src/Traverse/Compressed.antt =====
-- The compressed adjacency of engine/src/storage/traverse.rs: `Adj` and `pack`. Positions are `u32` in
-- the source, which holds fewer edges than that. An index out of bounds panics there.
use ontological_db.Base.{
  ℕ, zero, suc, ◌+◌, ◌-◌, List, [], ◌∷◌, get_or, set, take, drop, replicate, length,
}

-- The neighbours of the node at `i` are `nbrs[offs[i]..offs[i+1]]`.
pub record Adj : Type 0 where
  pub offs : List ℕ
  pub nbrs : List ℕ

unfoldable pub of : Adj → ℕ → List ℕ
of adj i =
    let from = get_or adj.offs i 0 in
    let to = get_or adj.offs (suc i) 0 in take (to - from) (drop from adj.nbrs)

-- `xs[i] += v`
abbrev pub add_at : List ℕ → ℕ → ℕ → List ℕ
add_at xs i v = set xs i (get_or xs i 0 + v)

unfoldable pub count_sources : List (ℕ × ℕ) → List ℕ → List ℕ
count_sources [] offs = offs
count_sources ((s, d) ∷ edges) offs = count_sources edges (add_at offs (suc s) 1)

-- The offsets summed up, `n` rounds from `i` on.
unfoldable pub sum_up : ℕ → ℕ → List ℕ → List ℕ
sum_up zero i offs = offs
sum_up (suc n) i offs = sum_up n (suc i) (add_at offs (suc i) (get_or offs i 0))

unfoldable pub place : List (ℕ × ℕ) → List ℕ → List ℕ → List ℕ
place [] fill nbrs = nbrs
place ((s, d) ∷ edges) fill nbrs = place edges (add_at fill s 1) (set nbrs (get_or fill s 0) d)

unfoldable pub pack : ℕ → List (ℕ × ℕ) → Adj
unfolding count_sources sum_up place
pack n edges =
    let offs = sum_up n 0 (count_sources edges (replicate (n + 1) 0)) in
    record { offs = offs; nbrs = place edges offs (replicate (length edges) 0) }
