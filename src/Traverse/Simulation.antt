-- ===== src/Traverse/Simulation.antt =====
-- `og_csr_reach` of engine/src/storage/traverse.rs does on positions what `og_reach` does on ids.
use ontological_db.Base.{
  ℕ, zero, suc, ◌*◌, ◌≡◌, ◌≤◌, ◌<◌, refl, sym, ap, ◌∙◌, inl, inr, Bool, true, false, Bool-cases,
  not, ◌&&◌, ◌||◌, ◌==◌, if◌then◌else◌, List, [], ◌∷◌, ◌++◌, map, length, get_or, replicate,
  length-replicate, All, arith, or-true,
}
use ontological_db.Base.Int.{ℤ}
use ontological_db.Base.Members.{member}
use ontological_db.Traverse.Heap.{Search, at_least, step, steps, levels, start}
use ontological_db.Traverse.Compressed.{Adj, of}
use ontological_db.Traverse.CsrReach.{
  mark, CsrSearch, csr_step, csr_steps, csr_level, csr_levels, csr_start,
}
use ontological_db.Traverse.Marks.{
  is_marked, mark_fresh, length-mark, is_marked-mark, is_marked_zeros,
}

map-append {ℓ} :
    {A B : Type ℓ} (f : A → B) (xs ys : List A) → map f (xs ++ ys) ≡ map f xs ++ map f ys
map-append f [] ys = refl
map-append f (x ∷ xs) ys = ap (λ t. f x ∷ t) (map-append f xs ys)

All-snoc :
    {n : ℕ} (xs : List ℕ) (x : ℕ) → All (λ y. y < n) xs → x < n → All (λ y. y < n) (xs ++ x ∷ [])
All-snoc [] x h k = (k, tt)
All-snoc (y ∷ xs) x (h, hs) k = (h, All-snoc xs x hs k)

-- The neighbours of a frontier, node by node.
unfoldable pub around : Adj → List ℕ → List ℕ
around fwd [] = []
around fwd (p ∷ ps) = of fwd p ++ around fwd ps

-- The pair that reports a position.
abbrev pub named : List ℕ → ℕ × ℕ → ℕ × ℕ
named ids (p, d) = (get_or ids p 0, d)

module _ (ids : List ℕ) (src home : ℕ) (minhop : ℤ) (n : ℕ)
    (at_home : get_or ids home 0 ≡ src) where
  -- The two searches have seen, found and reported the same.
  pub record Sim (c : CsrSearch) (t : Search) : Type 0 where
    pub marks : (j : ℕ) → j < n → is_marked c.seen j ≡ member j t.visited
    pub words : n ≤ length c.seen * 64
    pub same_next : c.next ≡ t.next
    pub same_out : c.out ≡ map (named ids) t.out
    pub same_done : c.start_done ≡ t.start_done
    pub in_range : All (λ j. j < n) t.next

  if-named :
      (b : Bool) (out : List (ℕ × ℕ)) (x : ℕ × ℕ)
      → (if b then map (named ids) out ++ named ids x ∷ [] else map (named ids) out)
        ≡ map (named ids) (if b then out ++ x ∷ [] else out)
  if-named true out x = sym (map-append (named ids) out (x ∷ []))
  if-named false out x = refl

  csr_step-Sim :
      (depth m : ℕ) (c : CsrSearch) (t : Search)
      → m < n
      → Sim c t
      → Sim (csr_step ids src home minhop depth m c) (step home minhop depth m t)
  unfolding csr_step step member
  csr_step-Sim depth m c t h s = elim (Bool-cases (member m t.visited)) [
    | inl e ↦
        let stale : (mark c.seen m).0 ≡ false = mark_fresh c.seen m ∙ ap not (s.marks m h ∙ e) in
        rw (stale, e)
          (record {
            marks = λ j k. new_mark j k ∙ old j e k;
            words = roomy;
            same_next = s.same_next;
            same_out =
                rw (s.same_done, s.same_out, sym at_home)
                  (if-named (m == home && not t.start_done && at_least depth minhop) t.out
                    (home, depth));
            same_done = rw s.same_done refl;
            in_range = s.in_range;
          })
    | inr e ↦
        let fresh : (mark c.seen m).0 ≡ true = mark_fresh c.seen m ∙ ap not (s.marks m h ∙ e) in
        rw (fresh, e)
          (record {
            marks = new_mark;
            words = roomy;
            same_next = rw s.same_next refl;
            same_out = rw s.same_out (if-named (at_least depth minhop) t.out (m, depth));
            same_done = s.same_done;
            in_range = All-snoc t.next m s.in_range h;
          })
  ]
    where
      new_mark : (j : ℕ) → j < n → is_marked (mark c.seen m).1 j ≡ ((j == m) || member j t.visited)
      new_mark j k =
          let w = s.words in
          is_marked-mark c.seen m j (omega arith) ∙ ap (λ b. (j == m) || b) (s.marks j k)

      roomy : n ≤ length (mark c.seen m).1 * 64
      roomy = let l = length-mark c.seen m in let w = s.words in omega arith

      old :
          (j : ℕ)
          → member m t.visited ≡ true
          → j < n
          → ((j == m) || member j t.visited) ≡ member j t.visited
      old j e k = elim (Bool-cases (j == m)) [
        | inr f ↦ rw f refl
        | inl f ↦ let q : j ≡ m = ground arith in rw (q, e) (or-true (m == m))
      ]

  csr_steps-Sim :
      (depth : ℕ) (ms : List ℕ) (c : CsrSearch) (t : Search)
      → All (λ j. j < n) ms
      → Sim c t
      → Sim (csr_steps ids src home minhop depth ms c) (steps home minhop depth ms t)
  unfolding csr_steps steps
  csr_steps-Sim depth [] c t h s = s
  csr_steps-Sim depth (m ∷ ms) c t (h, hs) s =
      csr_steps-Sim depth ms (csr_step ids src home minhop depth m c) (step home minhop depth m t)
        hs (csr_step-Sim depth m c t h s)

  csr_steps-append :
      (depth : ℕ) (xs ys : List ℕ) (c : CsrSearch)
      → csr_steps ids src home minhop depth (xs ++ ys) c
        ≡ csr_steps ids src home minhop depth ys (csr_steps ids src home minhop depth xs c)
  unfolding csr_steps
  csr_steps-append depth [] ys c = refl
  csr_steps-append depth (x ∷ xs) ys c =
      csr_steps-append depth xs ys (csr_step ids src home minhop depth x c)

  csr_level-around :
      (fwd : Adj) (depth : ℕ) (ps : List ℕ) (c : CsrSearch)
      → csr_level ids src home minhop fwd depth ps c
        ≡ csr_steps ids src home minhop depth (around fwd ps) c
  unfolding csr_level around csr_steps
  csr_level-around fwd depth [] c = refl
  csr_level-around fwd depth (p ∷ ps) c =
      csr_level-around fwd depth ps (csr_steps ids src home minhop depth (of fwd p) c)
      ∙ sym (csr_steps-append depth (of fwd p) (around fwd ps) c)

  pub csr_levels-Sim :
      (fwd : Adj)
      → ((ps : List ℕ) → All (λ j. j < n) ps → All (λ j. j < n) (around fwd ps))
      → (i depth : ℕ) (frontier : List ℕ) (c : CsrSearch) (t : Search) → All (λ j. j < n) frontier
      → Sim c t
      → csr_levels ids src home minhop fwd i depth frontier c
        ≡ map (named ids) (levels home minhop (around fwd) i depth frontier t)
  unfolding csr_levels levels
  csr_levels-Sim fwd closed zero depth frontier c t h s = s.same_out
  csr_levels-Sim fwd closed (suc i) depth [] c t h s = s.same_out
  csr_levels-Sim fwd closed (suc i) depth (f ∷ fs) c t h s =
      let start_level : Sim (record c { next = [] }) (record t { next = [] }) = record {
        marks = s.marks;
        words = s.words;
        same_next = refl;
        same_out = s.same_out;
        same_done = s.same_done;
        in_range = tt;
      } in
      let after =
        csr_steps-Sim depth (around fwd (f ∷ fs)) (record c { next = [] }) (record t { next = [] })
          (closed (f ∷ fs) h) start_level in
      let c' = csr_steps ids src home minhop depth (around fwd (f ∷ fs)) (record c { next = [] }) in
      let t' = steps home minhop depth (around fwd (f ∷ fs)) (record t { next = [] }) in
      ap (λ (x : CsrSearch). csr_levels ids src home minhop fwd i (suc depth) x.next x)
        (csr_level-around fwd depth (f ∷ fs) (record c { next = [] }))
      ∙ ap (λ (x : List ℕ). csr_levels ids src home minhop fwd i (suc depth) x c') after.same_next
      ∙ csr_levels-Sim fwd closed i (suc depth) t'.next c' t' after.in_range after

  pub start-Sim :
      home < n
      → (words : ℕ) → n ≤ words * 64
      → Sim (csr_start ids src home minhop words) (start home minhop)
  unfolding member
  start-Sim h words k = record {
    marks = λ j l.
        let b : length (replicate {A = ℕ} words 0) ≡ words = length-replicate words 0 in
        is_marked-mark (replicate words 0) home j (omega arith)
        ∙ ap (λ (b : Bool). (j == home) || b) (is_marked_zeros words j);
    words =
        let a = length-mark (replicate words 0) home in
        let b : length (replicate {A = ℕ} words 0) ≡ words = length-replicate words 0 in
        omega arith;
    same_next = refl;
    same_out = opening (at_least 0 minhop);
    same_done = refl;
    in_range = tt;
  }
    where
      opening :
          (b : Bool)
          → (if b then (src, 0) ∷ [] else []) ≡ map (named ids) (if b then (home, 0) ∷ [] else [])
      opening true = rw at_home refl
      opening false = refl
