-- ===== src/Migrate/Named/Comparing.antt =====
-- The changes of the elements of two maps (migrate/diff/table_differ.go).
use prisma_go.Base.{
  ◌≡◌, refl, ◌↔◌, inl, inr, if◌then◌else◌, Bool, true, false, String, ◌<>◌, List, [], ◌∷◌, some,
  arith, Runtime, IsRuntime, Dict, IsDict, entry, In, In-append_three, gather, for_each,
}
use prisma_go.Migrate.Change.{Change}
use prisma_go.Migrate.Database.Visiting.{In-visited}
use prisma_go.Migrate.Named.{no_renames, is_matched, rename_if_matched, compare_named}
use prisma_go.Migrate.Named.Renaming.{IsRenamed, loop-Renamed}

In-appended_unless :
    {A : Type 0} (b : Bool) (c x : A) → In c (if b then [] else x ∷ []) ↔ ((¬ (b ≡ true)) × (c ≡ x))
In-appended_unless true c x = (λ m. absurd m, λ m. absurd (m.0 refl))
In-appended_unless false c x =
    (λ m. elim m [ inl e ↦ (λ h. ground arith, e) | inr m ↦ absurd m ], λ m. inl m.1)

module _ {T : Type 0} (rename : String → String → Change) (create drop : String → T → Change)
    (prevs nexts : Dict T) (R : String → String → Type 0) where
  -- What is renamed, what is created, and what is dropped, where `R` says what is renamed.
  pub data IsChange (c : Change) : Type 0 where
    renames : (old new : String) → R old new → c ≡ rename old new → IsChange c
    creates :
        (name : String) (next : T)
        → entry name nexts ≡ some next
        → ¬ ((old : String) × R old name)
        → c ≡ create name next
        → IsChange c
    drops :
        (name : String) (prev : T)
        → entry name prevs ≡ some prev
        → ¬ ((new : String) × R name new)
        → c ≡ drop name prev
        → IsChange c

  pub compare_named-IsChange :
      (renamed : String → String → Bool) (pairs : Dict String) (r : Runtime) (loop : String)
      (c : Change)
      → IsRuntime r
      → IsDict pairs
      → IsDict prevs
      → IsDict nexts
      → ((old new : String) → IsRenamed renamed rename pairs old new ↔ R old new)
      → In c (compare_named r loop renamed rename create drop pairs prevs nexts) ↔ IsChange c
  unfolding compare_named
  compare_named-IsChange renamed pairs r loop c go d dp dn is =
      let s =
        for_each (rename_if_matched renamed rename) (r.visit (loop <> ": renames") pairs)
          no_renames in
      let done = loop-Renamed renamed rename r (loop <> ": renames") pairs go d in
      let new : String × T → List Change =
        λ e. if is_matched e.0 s.matched_next then [] else create e.0 e.1 ∷ [] in
      let gone : String × T → List Change =
        λ e. if is_matched e.0 s.matched_prev then [] else drop e.0 e.1 ∷ [] in
      let created = In-visited r (loop <> ": created") new nexts c go dn in
      let dropped = In-visited r (loop <> ": dropped") gone prevs c go dp in
      let three =
        In-append_three c s.changes (gather new (r.visit (loop <> ": created") nexts))
          (gather gone (r.visit (loop <> ": dropped") prevs)) in
      (
        λ m. elim (three.0 m) [
          | inl m ↦ let (old, to, h, e) = (done.changes c).0 m in renames old to ((is old to).0 h) e
          | inr m ↦ elim m [
            | inl m ↦
                let (k, v, e, i) = created.0 m in
                let (n, h) = (In-appended_unless _ c (create k v)).0 i in
                creates k v e (λ q. n ((done.next k).1 (q.0, (is q.0 k).1 q.1))) h
            | inr m ↦
                let (k, v, e, i) = dropped.0 m in
                let (n, h) = (In-appended_unless _ c (drop k v)).0 i in
                drops k v e (λ q. n ((done.prev k).1 (q.0, (is k q.0).1 q.1))) h
          ]
        ],
        λ m. three.1 (elim m [
          | renames old to h e ↦ inl ((done.changes c).1 (old, to, (is old to).1 h, e))
          | creates k v e n h ↦ inr (
              inl (
                created.1 (
                  k,
                  v,
                  e,
                  (In-appended_unless _ c (create k v)).1
                      (λ t. let (q, w) = (done.next k).0 t in n (q, (is q k).0 w), h),
                )))
          | drops k v e n h ↦ inr (
              inr (
                dropped.1 (
                  k,
                  v,
                  e,
                  (In-appended_unless _ c (drop k v)).1
                      (λ t. let (q, w) = (done.prev k).0 t in n (q, (is k q).0 w), h),
                )))
        ]),
      )
