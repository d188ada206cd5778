-- ===== src/Migrate/Ordering/Kahn.antt =====
-- Kahn's algorithm over a bounded graph whose edges go up in rank: it ends, it places every index
-- once, and every edge points forwards in what it returns.
use native.Mathlib.Decide.{dec_lt, ℕ_discrete}
use prisma_go.Base.{
  ℕ, zero, suc, ◌+◌, ◌-◌, ◌≤◌, ◌<◌, ◌==◌, ltb, leb, ◌≡◌, refl, sym, ◌∙◌, true, false, ◌&&◌, List,
  [], ◌∷◌, ◌++◌, map, map-append, Option, some, length, length-append, for_each, count, count-nil,
  count-cons, count-append, count-sort_ints, sort_ints, sum_below, sum_below_update, sum_below-zero,
  sum_below-pos, arith, if◌then◌else◌,
}
use prisma_go.Migrate.Ordering.{contains_int, Frontier, release, kahn, initial_queue}
use prisma_go.Migrate.Ordering.Graph.{contains_int-append, contains_int-count}
use prisma_go.Migrate.Ordering.Position.{IsForward, IsForward-concat, length-le_of_count}

-- One pass over the dependents of a step: the in-degrees fall, and who comes to 0 is queued once.
release_all :
    (ds : List ℕ) (s : Frontier)
    → ((v : ℕ) → count v ds ≤ s.in_degree v)
    → (v : ℕ)
    → let s' = for_each release ds s in
      (s'.in_degree v ≡ s.in_degree v - count v ds)
      × (count v s'.queue
          ≡ count v s.queue
            + (if ltb 0 (count v ds) && (count v ds == s.in_degree v) then 1 else 0))
unfolding release
release_all [] s h v = ground (arith, count-nil v)
release_all (d ∷ ds) s h v =
    let s1 = release d s in
    ground (
      arith,
      h v,
      h d,
      count-cons v d ds,
      count-cons d d ds,
      count-append v s.queue (d ∷ []),
      count-cons v d [],
      count-nil v,
      release_all ds s1 (λ u. ground (arith, h u, count-cons u d ds, h d, count-cons d d ds)) v,
    )

term-le-sum : (n c : ℕ) (f : ℕ → ℕ) → c < n → f c ≤ sum_below n f
unfolding sum_below
term-le-sum zero c f l = absurd (omega arith)
term-le-sum (suc n) c f l = elim (ℕ_discrete c n) [
  | yes p ↦ rw p (omega arith)
  | no p ↦ omega (arith, term-le-sum n c f (omega arith))
]

module _ (n : ℕ) (next : ℕ → List ℕ)
    (bounded : (u v : ℕ) → contains_int (next u) v ≡ true → (u < n) × (v < n)) where
  -- The edges into `v` from what is not placed.
  pub open_edges : List ℕ → ℕ → ℕ
  open_edges out v = sum_below n (λ u. if contains_int out u then 0 else count v (next u))

  pub record Invariant (s : Frontier) (out : List ℕ) : Type 0 where
    pub degrees : (v : ℕ) → s.in_degree v ≡ open_edges out v
    pub placed :
        (v : ℕ) → count v out + count v s.queue ≡ (if ltb v n && (s.in_degree v == 0) then 1 else 0)
    pub forward : IsForward next out

  -- Placing `c` closes its edges.
  open_edges-concat :
      (out : List ℕ) (c v : ℕ)
      → c < n
      → contains_int out c ≡ false
      → open_edges out v ≡ open_edges (out ++ (c ∷ [])) v + count v (next c)
  unfolding open_edges contains_int
  open_edges-concat out c v l fresh =
      sum_below_update n c (count v (next c)) _ _ l
        (ground (arith, contains_int-append out (c ∷ []) c))
        (λ u ne. ground (arith, contains_int-append out (c ∷ []) u))

  -- What is known of the head of the queue.
  module _ (s : Frontier) (out : List ℕ) (c : ℕ) (rest : List ℕ)
      (taken : sort_ints s.queue ≡ c ∷ rest) (i : Invariant s out) where
    abbrev after : Frontier
    after = for_each release (next c) (record s { queue = rest })

    queue_count : (v : ℕ) → count v s.queue ≡ (if c == v then 1 else 0) + count v rest
    queue_count v = sym (count-sort_ints v s.queue) ∙ rw taken (count-cons v c rest)

    head_facts : (c < n) × (s.in_degree c ≡ 0) × (contains_int out c ≡ false)
    head_facts = ground (arith, i.placed c, queue_count c, contains_int-count out c)

    enough : (v : ℕ) → count v (next c) ≤ s.in_degree v
    enough v =
        let (l, z, fresh) = head_facts in
        omega (arith, open_edges-concat out c v l fresh, i.degrees v)

    step_release :
        (v : ℕ)
        → (after.in_degree v ≡ s.in_degree v - count v (next c))
          × (count v after.queue
              ≡ count v rest
                + (if ltb 0 (count v (next c)) && (count v (next c) == s.in_degree v)
                    then 1
                    else 0))
    step_release = release_all (next c) (record s { queue = rest }) enough

    step_placed :
        (v : ℕ)
        → count v (out ++ (c ∷ [])) + count v after.queue
          ≡ (if ltb v n && (after.in_degree v == 0) then 1 else 0)
    step_placed v = ground (
      arith,
      step_release v,
      i.placed v,
      queue_count v,
      enough v,
      count-append v out (c ∷ []),
      count-cons v c [],
      count-nil v,
      contains_int-count (next c) v,
      bounded c v,
    )

    step_before : (u : ℕ) → contains_int (next u) c ≡ true → contains_int out u ≡ true
    step_before u e =
        let (l, z, fresh) = head_facts in
        ground (
          arith,
          sum_below-zero n (λ w. if contains_int out w then 0 else count c (next w)) u
              (unfold open_edges in (sym (i.degrees c) ∙ z)) (bounded u c e).0,
          contains_int-count (next u) c,
        )

    step-Invariant : Invariant after (out ++ (c ∷ []))
    step-Invariant =
        let (l, z, fresh) = head_facts in
        record {
          degrees =
              λ v. omega (arith, step_release v, i.degrees v, open_edges-concat out c v l fresh);
          placed = step_placed;
          forward = IsForward-concat next out c i.forward fresh step_before;
        }

  module _ (height : ℕ → ℕ)
      (up : (u v : ℕ) → contains_int (next u) v ≡ true → height u < height v) where
    -- With an empty queue nothing is left: what is left would have a predecessor that is left,
    -- of lower rank.
    none_left :
        (s : Frontier) (out : List ℕ)
        → sort_ints s.queue ≡ []
        → Invariant s out
        → (r v : ℕ) → height v < r
        → v < n
        → count v out ≡ 1
    none_left s out empty i zero v hr hv = absurd (omega arith)
    none_left s out empty i (suc r) v hr hv =
        let queue_empty : count v s.queue ≡ 0 =
          sym (count-sort_ints v s.queue) ∙ rw empty (count-nil v) in
        elim (ℕ_discrete (s.in_degree v) 0) [
          | yes z ↦ ground (arith, i.placed v)
          | no nz ↦
              let (u, lu, pos) =
                sum_below-pos n (λ w. if contains_int out w then 0 else count v (next w))
                  (unfold open_edges in
                    rw (i.degrees v) at (let p : 0 < s.in_degree v = omega arith in p)) in
              let edge : contains_int (next u) v ≡ true =
                ground (arith, contains_int-count (next u) v) in
              let before = up u v edge in
              ground (arith, none_left s out empty i r u (omega arith) lu, contains_int-count out u)
        ]

    -- What the loop returns.
    pub record IsOrder (out : List ℕ) : Type 0 where
      pub once : (v : ℕ) → count v out ≡ (if ltb v n then 1 else 0)
      pub forward : IsForward next out

    module _ {A : Type 0} (steps_at : ℕ → A) where
      abbrev pub Outcome : Option (List A) → Type 0
      Outcome r = (out : List ℕ) × (r ≡ some (map steps_at out)) × IsOrder out

      empty-IsOrder :
          (s : Frontier) (out : List ℕ) → sort_ints s.queue ≡ [] → Invariant s out → IsOrder out
      empty-IsOrder s out e i = record {
        once = λ v. elim (dec_lt v n) [
          | yes l ↦ ground (arith, none_left s out e i (suc (height v)) v (omega arith) l)
          | no l ↦ ground (arith, i.placed v)
        ];
        forward = i.forward;
      }

      -- One round, from what the rest of the loop does.
      kahn_round :
          (fuel : ℕ) (s : Frontier) (out : List ℕ)
          → Invariant s out
          → ((t : Frontier) (more : List ℕ)
              → Invariant t more
              → length more ≡ length out + 1
              → Outcome (kahn steps_at next fuel t (map steps_at more)))
          → (q : List ℕ) → sort_ints s.queue ≡ q
          → Outcome (kahn steps_at next (suc fuel) s (map steps_at out))
      unfolding kahn
      kahn_round fuel s out i ih [] e = (out, rw (e, kahn), empty-IsOrder s out e i)
      kahn_round fuel s out i ih (c ∷ rest) e =
          let (out', run, order) =
            ih (after s out c rest e i) (out ++ (c ∷ [])) (step-Invariant s out c rest e i)
              (omega (arith, length-append {0} out (c ∷ []))) in
          (out', rw (e, kahn, ← map-append steps_at out (c ∷ [])) run, order)

      -- The loop ends within `n + 1` rounds and places every index.
      pub kahn_loop :
          (fuel : ℕ) (s : Frontier) (out : List ℕ)
          → Invariant s out
          → n < fuel + length out
          → Outcome (kahn steps_at next fuel s (map steps_at out))
      kahn_loop zero s out i h =
          absurd (omega (arith, length-le_of_count n out (λ v. ground (arith, i.placed v))))
      kahn_loop (suc fuel) s out i h =
          kahn_round fuel s out i (λ t more j l. kahn_loop fuel t more j (omega arith))
            (sort_ints s.queue) refl

count-initial_queue :
    (deg : ℕ → ℕ) (v k m : ℕ)
    → count v (initial_queue deg k m)
      ≡ (if leb k v && (ltb v (k + m) && (deg v == 0)) then 1 else 0)
unfolding initial_queue
count-initial_queue deg v k zero = ground (arith, count-nil v)
count-initial_queue deg v k (suc m) =
    ground
      (arith, count-initial_queue deg v (suc k) m, count-cons v k (initial_queue deg (suc k) m))

-- The queue that the algorithm starts with.
pub initial-Invariant :
    (n : ℕ) (next : ℕ → List ℕ)
    (bounded : (u v : ℕ) → contains_int (next u) v ≡ true → (u < n) × (v < n)) (deg : ℕ → ℕ)
    → ((v : ℕ) → deg v ≡ sum_below n (λ u. count v (next u)))
    → Invariant n next bounded (record { in_degree = deg; queue = initial_queue deg 0 n }) []
unfolding open_edges contains_int
initial-Invariant n next bounded deg h = record {
  degrees = h;
  placed = λ v. ground (arith, count-initial_queue deg v 0 n, count-nil v);
  forward = λ u v e t. cc;
}
