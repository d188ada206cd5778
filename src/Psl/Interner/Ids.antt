-- ===== src/Psl/Interner/Ids.antt =====
-- The interner hands out one id for each string, and gets the string back from it.
use prisma_go.Base.{
  get_elem?-lt, get_elem?-get_or, get_elem?-append, get_elem?-concat, get_elem?-last, ℕ, ◌+◌, ◌^◌,
  ◌≡◌, ◌<◌, refl, sym, ◌∙◌, String, str_eq, eq_iff, List, [], ◌∷◌, ◌++◌, none, some, length,
  length-append, get_elem?, In, ◌≤◌, arith, inl, inr, Bool-cases, Option-cases,
}
use prisma_go.Psl.Interner.{
  StringInterner, string_id, new_string_interner, entry, get, lookup, intern, intern_all,
}

-- The map and the slice are inverse to each other.
pub record IsValid (si : StringInterner) : Type 0 where
  pub to_id : (s : String) (id : ℕ) → entry s si.index ≡ some id → get_elem? si.strings id ≡ some s
  pub from_id :
      (s : String) (id : ℕ) → get_elem? si.strings id ≡ some s → entry s si.index ≡ some id

string_id_small : (n : ℕ) → n < 2 ^ 32 → string_id n ≡ n
unfolding string_id
string_id_small n h = omega arith

-- A new interner is well-formed.
pub new_string_interner-IsValid : IsValid new_string_interner
unfolding new_string_interner entry
new_string_interner-IsValid = record {
  to_id = λ s id e. ground arith;
  from_id = λ s id e. ground arith;
}

intern-known :
    (s : String) (si : StringInterner) (id : ℕ)
    → entry s si.index ≡ some id
    → intern s si ≡ (id, si)
unfolding intern
intern-known s si id e = rw (e, intern) refl

-- An interner with one more string.
extended : String → StringInterner → StringInterner
extended s si = record {
  strings = si.strings ++ (s ∷ []);
  index = (s, length si.strings) ∷ si.index;
}

intern-new :
    (s : String) (si : StringInterner)
    → entry s si.index ≡ none
    → length si.strings < 2 ^ 32
    → intern s si ≡ (length si.strings, extended s si)
unfolding intern extended
intern-new s si e small = rw (e, intern) (rw (string_id_small (length si.strings) small) refl)

extended-IsValid :
    (s : String) (si : StringInterner)
    → IsValid si
    → entry s si.index ≡ none
    → IsValid (extended s si)
unfolding extended entry
extended-IsValid s si h e = record {
  to_id = λ t id k. elim (Bool-cases (str_eq t s)) [
    | inl q ↦
        let same : t ≡ s = (eq_iff t s).0 q in
        let last : length si.strings ≡ id = ground arith in
        rw (same, ← last) (get_elem?-last si.strings s)
    | inr q ↦ get_elem?-append si.strings (s ∷ []) id t (h.to_id t id (ground arith))
  ];
  from_id = λ t id k. elim (get_elem?-concat si.strings s t id k) [
    | inl m ↦ ground (arith, eq_iff t s, h.from_id t id m)
    | inr m ↦ ground (arith, eq_iff t s)
  ];
}

entry-extended :
    (s : String) (si : StringInterner) → entry s (extended s si).index ≡ some (length si.strings)
unfolding extended entry
entry-extended s si = ground (arith, eq_iff s s)

entry-extended_old :
    (s t : String) (j : ℕ) (si : StringInterner)
    → entry s si.index ≡ none
    → entry t si.index ≡ some j
    → entry t (extended s si).index ≡ some j
unfolding extended entry
entry-extended_old s t j si e k = ground (arith, eq_iff t s)

-- `Intern` keeps the interner well-formed while it holds fewer than 2 ^ 32 strings.
pub intern-IsValid :
    (s : String) (si : StringInterner)
    → IsValid si
    → length si.strings < 2 ^ 32
    → IsValid (intern s si).1
intern-IsValid s si h small = elim (Option-cases (entry s si.index)) [
  | inl e ↦ rw (intern-new s si e small) (extended-IsValid s si h e)
  | inr (id, e) ↦ rw (intern-known s si id e) h
]

-- `Get` of an id in the map is its string.
get-entry :
    (s : String) (id : ℕ) (si : StringInterner)
    → IsValid si
    → entry s si.index ≡ some id
    → get id si ≡ s
unfolding get
get-entry s id si h e =
    let there = h.to_id s id e in
    ground (arith, get_elem?-lt si.strings id s there, get_elem?-get_or si.strings id s "" there)

-- In a well-formed interner with fewer than 2 ^ 32 strings, `Intern` returns an id from which `Get`
-- returns the string and which `Lookup` finds for it. The ids that `Lookup` found before are found
-- for the same strings, and `Get` returns these strings from them.
pub intern-get :
    (s : String) (si : StringInterner)
    → IsValid si
    → length si.strings < 2 ^ 32
    → let (id, after) = intern s si in
      (get id after ≡ s)
      × (lookup s after ≡ some id)
      × ((t : String) (j : ℕ)
          → lookup t si ≡ some j
          → (lookup t after ≡ some j) × (get j after ≡ t))
unfolding lookup
intern-get s si h small = elim (Option-cases (entry s si.index)) [
  | inl e ↦
      let v = extended-IsValid s si h e in
      let new = entry-extended s si in
      rw (intern-new s si e small) (
        get-entry s (length si.strings) (extended s si) v new,
        new,
        λ t j k.
            let old = entry-extended_old s t j si e k in (old, get-entry t j (extended s si) v old),
      )
  | inr (id, e) ↦
      rw (intern-known s si id e) (get-entry s id si h e, e, λ t j k. (k, get-entry t j si h k))
]

-- In a well-formed interner, two strings with one id are one string.
pub lookup_injective :
    (s t : String) (id : ℕ) (si : StringInterner)
    → IsValid si
    → lookup s si ≡ some id
    → lookup t si ≡ some id
    → s ≡ t
unfolding lookup
lookup_injective s t id si h e k = sym (get-entry s id si h e) ∙ get-entry t id si h k

count_strings :
    (s : String) (si : StringInterner)
    → length si.strings < 2 ^ 32
    → length (intern s si).1.strings ≤ length si.strings + 1
count_strings s si small = elim (Option-cases (entry s si.index)) [
  | inl e ↦
      rw (intern-new s si e small)
        (unfold extended in omega (arith, length-append {0} si.strings (s ∷ [])))
  | inr (id, e) ↦ rw (intern-known s si id e) (omega arith)
]

intern_all_from :
    (xs : List String) (si : StringInterner)
    → IsValid si
    → length si.strings + length xs ≤ 2 ^ 32
    → IsValid (intern_all xs si)
      × ((t : String) (j : ℕ) → lookup t si ≡ some j → lookup t (intern_all xs si) ≡ some j)
      × ((t : String) → In t xs → (j : ℕ) × (lookup t (intern_all xs si) ≡ some j))
unfolding intern_all
intern_all_from [] si h fits = (h, (λ t j k. k), λ t m. absurd m)
intern_all_from (x ∷ xs) si h fits =
    let small : length si.strings < 2 ^ 32 = omega arith in
    let next = intern-get x si h small in
    let (valid, keeps, found) =
      intern_all_from xs (intern x si).1 (intern-IsValid x si h small)
        (omega (arith, count_strings x si small)) in
    (
      valid,
      (λ t j k. keeps t j (next.2 t j k).0),
      λ t m. elim m [
        | inl e ↦ ((intern x si).0, rw e (keeps x (intern x si).0 next.1))
        | inr m ↦ found t m
      ],
    )

-- After up to 2 ^ 32 strings have been interned in a new interner, one after the other, with
-- repetitions or not, it is well-formed, and `Lookup` finds for each of them an id from which `Get`
-- returns it.
pub intern_all_lem :
    (xs : List String)
    → length xs ≤ 2 ^ 32
    → let si = intern_all xs new_string_interner in
      IsValid si × ((s : String) → In s xs → (id : ℕ) × (lookup s si ≡ some id) × (get id si ≡ s))
intern_all_lem xs fits =
    let (valid, _, found) =
      intern_all_from xs new_string_interner new_string_interner-IsValid
        (unfold new_string_interner in omega arith) in
    (
      valid,
      λ s m.
          let (id, e) = found s m in
          (id, e, get-entry s id (intern_all xs new_string_interner) valid (unfold lookup in e)),
    )
