-- ===== src/Migrate/Named/Renaming.antt =====
-- Which elements of two maps are renamed, created and dropped: the loops that `compareIndexes` and
-- `compareForeignKeys` share (migrate/diff/table_differ.go).
use prisma_go.Base.{
  ◌≡◌, ◌≢◌, refl, sym, ap, ◌∙◌, subst, ◌↔◌, ◌⊎◌, inl, inr, if◌then◌else◌, Bool, true, String, List,
  [], ◌∷◌, ◌++◌, append-nil, append_assoc, Option, none, some, arith, Bool-cases, Runtime,
  IsRuntime, Dict, IsDict, entry, entry-nil, put, entry-put_self, entry-put_ne, In, gather,
  for_each, str_eq, eq_iff,
}
use prisma_go.Migrate.Change.{Change}
use prisma_go.Migrate.Database.{or_false}
use prisma_go.Migrate.Database.Visiting.{In-visit, In-visited, In-appended_if, some_if}
use prisma_go.Migrate.Named.{Renames, no_renames, add_rename, is_matched, rename_if_matched}

is_matched-put :
    (k j : String) (m : Dict Bool)
    → (is_matched k (put j true m) ≡ true) ↔ ((is_matched k m ≡ true) ⊎ (j ≡ k))
unfolding is_matched
is_matched-put k j m = elim (Bool-cases (str_eq k j)) [
  | inl q ↦
      let e = (eq_iff k j).0 q in
      (
        λ _. inr (sym e),
        λ _. ap or_false (ap (λ x. entry x (put j true m)) e ∙ entry-put_self j true m),
      )
  | inr q ↦
      let n : k ≢ j = λ e. ground (arith, eq_iff k j, e) in
      let e = ap or_false (entry-put_ne k j true m n) in
      (λ h. inl (sym e ∙ h), λ h. elim h [ inl h ↦ e ∙ h | inr h ↦ absurd (n (sym h)) ])
]

not_matched : (k : String) → is_matched k [] ≡ true → ⊥
unfolding is_matched
not_matched k e = let f = ap or_false (entry-nil k) in ground (arith, e, f)

-- A mark for a name, if there is one.
abbrev mark : Option String → Dict Bool → Dict Bool
mark none m = m
mark (some name) m = put name true m

is_matched-mark :
    (k : String) (o : Option String) (m : Dict Bool)
    → (is_matched k (mark o m) ≡ true) ↔ ((is_matched k m ≡ true) ⊎ (o ≡ some k))
is_matched-mark k none m = (λ h. inl h, λ h. elim h [ inl h ↦ h | inr e ↦ ground arith ])
is_matched-mark k (some j) m = (
  λ h. elim ((is_matched-put k j m).0 h) [ inl h ↦ inl h | inr e ↦ inr (ap some e) ],
  λ h. (is_matched-put k j m).1 (elim h [ inl h ↦ inl h | inr e ↦ inr (ground arith) ]),
)

-- What is marked by a loop is marked by one of its rounds.
is_matched-marks :
    {A : Type 0} (name : A → Option String) (k : String) (xs : List A) (m : Dict Bool)
    → (is_matched k (for_each (λ x m. mark (name x) m) xs m) ≡ true)
      ↔ ((is_matched k m ≡ true) ⊎ ((x : A) × In x xs × (name x ≡ some k)))
is_matched-marks name k [] m = (λ h. inl h, λ h. elim h [ inl h ↦ h | inr e ↦ absurd e.1 ])
is_matched-marks name k (x ∷ xs) m =
    let rest = is_matched-marks name k xs (mark (name x) m) in
    let first = is_matched-mark k (name x) m in
    (
      λ h. elim (rest.0 h) [
        | inl h ↦ elim (first.0 h) [ inl h ↦ inl h | inr e ↦ inr (x, inl refl, e) ]
        | inr (y, i, e) ↦ inr (y, inr i, e)
      ],
      λ h. rest.1 (elim h [
        | inl h ↦ inl (first.1 (inl h))
        | inr (y, i, e) ↦ elim i [
          | inl q ↦ inl (first.1 (inr (ap name (sym q) ∙ e)))
          | inr i ↦ inr (y, i, e)
        ]
      ]),
    )

module _ (test : String → String → Bool) (rename : String → String → Change) where
  -- What a round appends and marks.
  abbrev renames : String × String → List Change
  renames e = if test e.0 e.1 then rename e.0 e.1 ∷ [] else []

  abbrev old_name : String × String → Option String
  old_name e = if test e.0 e.1 then some e.0 else none

  abbrev new_name : String × String → Option String
  new_name e = if test e.0 e.1 then some e.1 else none

  record Loop (es : List (String × String)) (s after : Renames) : Type 0 where
    changes : after.changes ≡ s.changes ++ gather renames es
    prev : after.matched_prev ≡ for_each (λ e m. mark (old_name e) m) es s.matched_prev
    next : after.matched_next ≡ for_each (λ e m. mark (new_name e) m) es s.matched_next

  one_rename :
      (e : String × String) (s : Renames) → Loop (e ∷ []) s (rename_if_matched test rename e s)
  unfolding rename_if_matched add_rename
  one_rename e s = elim (Bool-cases (test e.0 e.1)) [
    | inl h ↦ rw h (record { changes = rw h refl; prev = rw h refl; next = rw h refl })
    | inr h ↦
        rw h (record { changes = rw h (sym (append-nil _)); prev = rw h refl; next = rw h refl })
  ]

  all_renames :
      (es : List (String × String)) (s : Renames)
      → Loop es s (for_each (rename_if_matched test rename) es s)
  all_renames [] s = record { changes = sym (append-nil _); prev = refl; next = refl }
  all_renames (e ∷ es) s =
      let first = one_rename e s in
      let rest = all_renames es (rename_if_matched test rename e s) in
      record {
        changes =
            rest.changes
            ∙ ap (λ cs. cs ++ gather renames es) first.changes
            ∙ append_assoc s.changes (renames e ++ []) (gather renames es)
            ∙ ap (λ cs. s.changes ++ (cs ++ gather renames es)) (append-nil (renames e));
        prev = rest.prev ∙ ap (for_each (λ e m. mark (old_name e) m) es) first.prev;
        next = rest.next ∙ ap (for_each (λ e m. mark (new_name e) m) es) first.next;
      }

  -- An element is renamed to another.
  abbrev pub IsRenamed : Dict String → String → String → Type 0
  IsRenamed pairs old new = (entry old pairs ≡ some new) × (test old new ≡ true)

  -- The state at the end of the loop over the pairs.
  pub record Renamed (pairs : Dict String) (s : Renames) : Type 0 where
    pub changes :
        (c : Change)
        → In c s.changes
          ↔ ((old : String) × (new : String) × IsRenamed pairs old new × (c ≡ rename old new))
    pub prev :
        (k : String)
        → (is_matched k s.matched_prev ≡ true) ↔ ((new : String) × IsRenamed pairs k new)
    pub next :
        (k : String)
        → (is_matched k s.matched_next ≡ true) ↔ ((old : String) × IsRenamed pairs old k)

  pub loop-Renamed :
      (r : Runtime) (loop : String) (pairs : Dict String)
      → IsRuntime r
      → IsDict pairs
      → Renamed pairs (for_each (rename_if_matched test rename) (r.visit loop pairs) no_renames)
  loop-Renamed r loop pairs go d =
      let es = r.visit loop pairs in
      let s = for_each (rename_if_matched test rename) es no_renames in
      let done = all_renames es no_renames in
      record {
        changes = λ c.
            let visited = In-visited r loop renames pairs c go d in
            (
              λ m.
                  let (old, new, e, i) = visited.0 (subst (In c) done.changes m) in
                  let (t, h) = (In-appended_if (test old new) c (rename old new)).0 i in
                  (old, new, (e, t), h),
              λ m.
                  let (old, new, (e, t), h) = m in
                  subst (In c) (sym done.changes) (
                    visited.1
                      (old, new, e, (In-appended_if (test old new) c (rename old new)).1 (t, h))),
            );
        prev = λ k.
            let marked = is_matched-marks old_name k es [] in
            (
              λ m. elim (marked.0 (ap (is_matched k) (sym done.prev) ∙ m)) [
                | inl e ↦ absurd (not_matched k e)
                | inr ((old, new), i, e) ↦
                    let (t, h) = (some_if (test old new) old k).0 e in
                    (
                      new,
                      (
                        subst (λ n. entry n pairs ≡ some new) h
                            ((In-visit r loop old new pairs go d).0 i),
                        subst (λ n. test n new ≡ true) h t,
                      ),
                    )
              ],
              λ m.
                  let (new, (e, t)) = m in
                  ap (is_matched k) done.prev
                  ∙ marked.1 (
                      inr (
                        (k, new),
                        (In-visit r loop k new pairs go d).1 e,
                        (some_if (test k new) k k).1 (t, refl),
                      )),
            );
        next = λ k.
            let marked = is_matched-marks new_name k es [] in
            (
              λ m. elim (marked.0 (ap (is_matched k) (sym done.next) ∙ m)) [
                | inl e ↦ absurd (not_matched k e)
                | inr ((old, new), i, e) ↦
                    let (t, h) = (some_if (test old new) new k).0 e in
                    (
                      old,
                      (
                        subst (λ n. entry old pairs ≡ some n) h
                            ((In-visit r loop old new pairs go d).0 i),
                        subst (λ n. test old n ≡ true) h t,
                      ),
                    )
              ],
              λ m.
                  let (old, (e, t)) = m in
                  ap (is_matched k) done.next
                  ∙ marked.1 (
                      inr (
                        (old, k),
                        (In-visit r loop old k pairs go d).1 e,
                        (some_if (test old k) k k).1 (t, refl),
                      )),
            );
      }
