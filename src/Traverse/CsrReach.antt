-- ===== src/Traverse/CsrReach.antt =====
-- `og_csr_reach` of engine/src/storage/traverse.rs.
use ontological_db.Base.{
  ℕ, zero, suc, ◌+◌, ◌/◌, ◌%◌, ◌^◌, Bool, true, not, ◌&&◌, ◌==◌, if◌then◌else◌, List, [], ◌∷◌, ◌++◌,
  Option, none, some, length, get_or, set, replicate,
}
use Prim.Native.Nat.{bit_and, bit_or}
use ontological_db.Base.Int.{ℤ}
use ontological_db.Base.Outcome.{Result}
use ontological_db.Traverse.Heap.{at_least, rounds}
use ontological_db.Traverse.Compressed.{Adj, of}
use ontological_db.Traverse.Csr.{Csr, index_of, NoGraph, with_csr}

-- Sets a bit, and tells whether it was clear before.
unfoldable pub mark : List ℕ → ℕ → Bool × List ℕ
mark seen i =
    let w = i / 64 in
    let b = 2 ^ (i % 64) in
    (bit_and (get_or seen w 0) b == 0, set seen w (bit_or (get_or seen w 0) b))

pub record CsrSearch : Type 0 where
  pub seen : List ℕ
  pub next : List ℕ
  pub out : List (ℕ × ℕ)
  pub start_done : Bool

module _ (ids : List ℕ) (src start : ℕ) (minhop : ℤ) where
  unfoldable pub csr_step : ℕ → ℕ → CsrSearch → CsrSearch
  unfolding mark
  csr_step depth m s =
      let (fresh, seen) = mark s.seen m in
      let returns = m == start && not s.start_done && at_least depth minhop in
      if fresh
      then record {
        seen = seen;
        next = s.next ++ m ∷ [];
        out = if at_least depth minhop then s.out ++ (get_or ids m 0, depth) ∷ [] else s.out;
        start_done = s.start_done;
      }
      else record {
        seen = seen;
        next = s.next;
        out = if returns then s.out ++ (src, depth) ∷ [] else s.out;
        start_done = if returns then true else s.start_done;
      }

  unfoldable pub csr_steps : ℕ → List ℕ → CsrSearch → CsrSearch
  unfolding csr_step
  csr_steps depth [] s = s
  csr_steps depth (m ∷ ms) s = csr_steps depth ms (csr_step depth m s)

  -- The neighbours of each node of the frontier in turn.
  unfoldable pub csr_level : Adj → ℕ → List ℕ → CsrSearch → CsrSearch
  unfolding csr_steps of
  csr_level fwd depth [] s = s
  csr_level fwd depth (n ∷ ns) s = csr_level fwd depth ns (csr_steps depth (of fwd n) s)

  unfoldable pub csr_levels : Adj → ℕ → ℕ → List ℕ → CsrSearch → List (ℕ × ℕ)
  unfolding csr_level
  csr_levels fwd zero depth frontier s = s.out
  csr_levels fwd (suc n) depth [] s = s.out
  csr_levels fwd (suc n) depth (f ∷ fs) s =
      let s' = csr_level fwd depth (f ∷ fs) (record s { next = [] }) in
      csr_levels fwd n (suc depth) s'.next s'

  abbrev pub csr_start : ℕ → CsrSearch
  csr_start words = record {
    seen = (mark (replicate words 0) start).1;
    next = [];
    out = if at_least 0 minhop then (src, 0) ∷ [] else [];
    start_done = at_least 0 minhop;
  }

-- `ids.len().div_ceil(64)` words hold a bit for every position.
unfoldable pub csr_reach : ℕ → ℤ → ℤ → Csr → List (ℕ × ℕ)
unfolding index_of csr_levels mark
csr_reach src minhop maxhop g = elim (index_of g.ids src) [
  | none ↦ []
  | some start ↦
      csr_levels g.ids src start minhop g.fwd (rounds maxhop) 1 (start ∷ [])
        (csr_start g.ids src start minhop ((length g.ids + 63) / 64))
]

unfoldable pub og_csr_reach : ℕ → ℤ → ℤ → Option Csr → Result NoGraph (List (ℕ × ℕ))
unfolding csr_reach with_csr
og_csr_reach src minhop maxhop held = with_csr (csr_reach src minhop maxhop) held
