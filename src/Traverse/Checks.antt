-- ===== src/Traverse/Checks.antt =====
-- Runs of engine/src/storage/traverse.rs, and its theorems at concrete inputs.
use ontological_db.Base.{
  arith, Option, ℕ, ◌≡◌, ◌≢◌, ◌≤◌, ◌<◌, ◌↔◌, refl, true, List, [], ◌∷◌, none, some,
}
use ontological_db.Base.Int.{pos, negsuc}
use ontological_db.Base.Members.{In, first, later, member}
use ontological_db.Base.Outcome.{ok, err}
use ontological_db.Traverse.Heap.{
  Row, adj_where, outgoing, incoming, both, bad_direction, direction_of, at_least, og_reach,
}
use ontological_db.Traverse.Csr.{
  no_compiled_graph, ids_of, pick, og_csr_build, og_csr_stats, with_csr,
}
use ontological_db.Traverse.CsrReach.{og_csr_reach}
use ontological_db.Traverse.Refines.{og_csr_reach_same}
use ontological_db.Traverse.Hops.{og_csr_hops}
use ontological_db.Traverse.HopCounts.{LeastWalk, og_csr_hops_iff}
use ontological_db.Traverse.Steps.{Distinct}
use ontological_db.Traverse.Levels.{Walk}
use ontological_db.Traverse.Compressed.{of, pack}
use ontological_db.Traverse.Packing.{targets, of-pack}
use ontological_db.Traverse.Answers.{Linked, Least, og_reach_iff, og_reach_shortest}

abbrev out_row : ℕ → List ℕ → Row
out_row src nbrs = record { src = src; etype = 1; dir = 111; nbr = some (nullable nbrs) }
  where
    nullable : List ℕ → List (Option ℕ)
    nullable [] = []
    nullable (n ∷ ns) = some n ∷ nullable ns

-- 1 → 2, 1 → 3, 2 → 3, 3 → 1
abbrev triangle : List Row
triangle = out_row 1 (2 ∷ 3 ∷ []) ∷ out_row 2 (3 ∷ []) ∷ out_row 3 (1 ∷ []) ∷ []

triangle_runs :
    (og_reach triangle 1 none 111 (pos 1) (pos 5) ≡ ok ((2, 1) ∷ (3, 1) ∷ (1, 2) ∷ []))
    × (og_reach triangle 1 none 111 (pos 0) (pos 5) ≡ ok ((1, 0) ∷ (2, 1) ∷ (3, 1) ∷ []))
    × (og_reach triangle 1 none 111 (pos 2) (pos 5) ≡ ok ((1, 2) ∷ []))
    × (og_reach triangle 1 none 120 (pos 1) (pos 5) ≡ err (bad_direction 120))
unfolding og_reach member
triangle_runs = (refl, refl, refl, refl)

og_reach_iff_example :
    (out : List (ℕ × ℕ)) × (og_reach triangle 1 none 111 (pos 1) (pos 5) ≡ ok out)
    × Distinct out
    × ((n d : ℕ)
        → In {A = ℕ × ℕ} (n, d) out
          ↔ Least (Walk (Linked triangle outgoing none) 1) (pos 1) (pos 5) n d)
unfolding direction_of
og_reach_iff_example = og_reach_iff triangle 1 none 111 outgoing (pos 1) (pos 5) refl refl

og_reach_shortest_example :
    (out : List (ℕ × ℕ)) × (og_reach triangle 1 none 111 (pos 2) (pos 5) ≡ ok out)
    × Distinct out
    × ((n d : ℕ)
        → In {A = ℕ × ℕ} (n, d) out
        → Walk (Linked triangle outgoing none) 1 n d
          × (d ≤ 5)
          × (at_least d (pos 2) ≡ true)
          × (n ≢ 1 → (j : ℕ) → Walk (Linked triangle outgoing none) 1 n j → d ≤ j))
unfolding direction_of
og_reach_shortest_example = og_reach_shortest triangle 1 none 111 outgoing (pos 2) (pos 5) refl

compiled_runs :
    (og_csr_reach 1 (pos 1) (pos 5) (og_csr_build triangle none outgoing none).1
      ≡ ok ((2, 1) ∷ (3, 1) ∷ (1, 2) ∷ []))
    × (og_csr_reach 7 (pos 0) (pos 5) (og_csr_build triangle none outgoing none).1 ≡ ok [])
    × (og_reach triangle 7 none 111 (pos 0) (pos 5) ≡ ok ((7, 0) ∷ []))
    × (og_csr_reach 1 (pos 1) (pos 5) none ≡ err no_compiled_graph)
    × ((og_csr_build triangle none outgoing none).0 ≡ (3, 4, 72))
    × (og_csr_stats (og_csr_build triangle (some (2 ∷ 1 ∷ [])) outgoing none).1
        ≡ (some (outgoing, some (1 ∷ 2 ∷ [])), 3, 4, 72))
unfolding og_csr_reach og_csr_build og_csr_stats og_reach with_csr member
compiled_runs = (refl, refl, refl, refl, refl, refl)

og_csr_reach_same_example :
    (out : List (ℕ × ℕ)) × (compiled : List (ℕ × ℕ)) × (og_reach triangle 1 none 111 (pos 0) (pos 5)
      ≡ ok out)
    × (og_csr_reach 1 (pos 0) (pos 5) (og_csr_build triangle none outgoing none).1 ≡ ok compiled)
    × ((n d : ℕ) → In {A = ℕ × ℕ} (n, d) out ↔ In {A = ℕ × ℕ} (n, d) compiled)
unfolding direction_of ids_of pick
og_csr_reach_same_example =
    og_csr_reach_same triangle 1 none 111 outgoing (pos 0) (pos 5) none refl refl (λ e. first)

-- 1 → 2, 0 → 1, 1 → 0
abbrev arrows : List (ℕ × ℕ)
arrows = (1, 2) ∷ (0, 1) ∷ (1, 0) ∷ []

arrows_runs :
    (of (pack 3 arrows) 0 ≡ 1 ∷ [])
    × (of (pack 3 arrows) 1 ≡ 2 ∷ 0 ∷ [])
    × (of (pack 3 arrows) 2 ≡ [])
unfolding of pack
arrows_runs = (refl, refl, refl)

of-pack_example : of (pack 3 arrows) 1 ≡ 2 ∷ 0 ∷ []
unfolding targets
of-pack_example = of-pack 3 arrows 1 (omega arith, (omega arith, (omega arith, tt))) (omega arith)

abbrev two_rows : ℕ → ℕ → List Row → List Row
two_rows m n rows =
    record { src = m; etype = 1; dir = 111; nbr = some (some n ∷ []) }
    ∷ record { src = n; etype = 1; dir = 105; nbr = some (some m ∷ []) }
    ∷ rows

-- 1 → 2 → 3 → 4, and 1 → 5 → 4
abbrev paths : List Row
paths = two_rows 1 2 (two_rows 2 3 (two_rows 3 4 (two_rows 1 5 (two_rows 5 4 []))))

hops_run :
    (og_csr_hops 1 4 (pos 32) (og_csr_build paths none outgoing none).1 ≡ ok (some 2))
    × (og_csr_hops 1 4 (pos 1) (og_csr_build paths none outgoing none).1 ≡ ok none)
    × (og_csr_hops 4 1 (pos 32) (og_csr_build paths none outgoing none).1 ≡ ok none)
    × (og_csr_hops 2 5 (pos 32) (og_csr_build paths none both none).1 ≡ ok (some 2))
    × (og_csr_hops 3 3 (negsuc 0) (og_csr_build paths none outgoing none).1 ≡ ok (some 0))
    × (og_csr_hops 1 4 (pos 2147483647) (og_csr_build paths none outgoing none).1
        ≡ ok (some 2147483647))
unfolding og_csr_hops og_csr_build with_csr
hops_run = (refl, refl, refl, refl, refl, refl)

one_edge-Linked :
    (x y : ℕ)
    → Linked (two_rows 1 2 []) outgoing none x y ↔ Linked (two_rows 1 2 []) incoming none y x
unfolding adj_where
one_edge-Linked x y = (there x y, back x y)
  where
    there :
        (x y : ℕ)
        → Linked (two_rows 1 2 []) outgoing none x y
        → Linked (two_rows 1 2 []) incoming none y x
    there x y (row, first, e, a, first) = (_, later first, refl, refl, rw e first)
    there x y (row, first, e, a, later i) = elim i [ ]
    there x y (row, later first, e, a, i) = absurd (cc a)
    there x y (row, later (later h), e, a, i) = elim h [ ]

    back :
        (x y : ℕ)
        → Linked (two_rows 1 2 []) incoming none y x
        → Linked (two_rows 1 2 []) outgoing none x y
    back x y (row, first, e, a, i) = absurd (cc a)
    back x y (row, later first, e, a, first) = (_, first, refl, refl, rw e first)
    back x y (row, later first, e, a, later i) = elim i [ ]
    back x y (row, later (later h), e, a, i) = elim h [ ]

og_csr_hops_iff_example :
    (answer : Option ℕ) × (og_csr_hops 1 2
        (pos 5)
        (og_csr_build (two_rows 1 2 []) none outgoing none).1
      ≡ ok answer)
    × ((k : ℕ) → (answer ≡ some k) ↔ LeastWalk (Linked (two_rows 1 2 []) outgoing none) 1 2 5 k)
    × ((answer ≡ none) ↔ ((l : ℕ) → Walk (Linked (two_rows 1 2 []) outgoing none) 1 2 l → 5 < l))
og_csr_hops_iff_example =
    og_csr_hops_iff (two_rows 1 2 []) none outgoing 1 2 (pos 5) none one_edge-Linked (omega arith)
      (λ e. absurd (omega arith))
