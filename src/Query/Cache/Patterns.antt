-- ===== src/Query/Cache/Patterns.antt =====
-- `InvalidatePattern` and the matching of patterns (query/cache/cache.go), and what `Get` finds
-- afterwards.
use Prim.Native.String.{char_at}
use prisma_go.Base.{
  ℕ, ◌≡◌, refl, sym, ap, subst, ◌∙◌, if◌then◌else◌, Bool, true, false, String, str_eq, eq_iff, List,
  [], ◌∷◌, none, some, length, ◌==◌, arith, inl, inr, Bool-cases, Option-cases, for_each, In,
}
use prisma_go.Base.{split_char}
use prisma_go.Query.Cache.{LruCache, entry, has_expired, node_at, remove_node, get}
use prisma_go.Query.Cache.Entries.{
  IsKeyed, Shrinks, Shrinks-refl, Shrinks-trans, remove_node-Shrinks, remove_node-forgets,
  remove_node-entry, get-miss, get-hit,
}

-- `splitPattern`, `splitKey`
unfoldable pub split_colons : String → List String
unfolding split_char
split_colons s = split_char (char_at ":" 0) s

-- The loop over the parts of the pattern. (The lists have one length where the code gets here.)
unfoldable pub parts_match : List String → List String → Bool
parts_match [] keys = true
parts_match (p ∷ parts) [] = false
parts_match (p ∷ parts) (k ∷ keys) =
    let rest = parts_match parts keys in
    if str_eq p "*" then rest else if str_eq p k then rest else false

unfoldable pub matches_pattern : String → String → Bool
unfolding split_colons parts_match
matches_pattern key pattern =
    let parts = split_colons pattern in
    let keys = split_colons key in
    if str_eq pattern "*"
    then true
    else if length parts == length keys
    then parts_match parts keys
    else false

-- `toRemove`: the nodes of the keys that match.
unfoldable pub to_remove : String → List (String × ℕ) → List ℕ
unfolding matches_pattern
to_remove pattern [] = []
to_remove pattern ((k, a) ∷ entries) =
    let rest = to_remove pattern entries in if matches_pattern k pattern then a ∷ rest else rest

-- The loop over a map goes through each of its entries.
pub record IsRange (visited entries : List (String × ℕ)) : Type 0 where
  pub present : (k : String) (a : ℕ) → In (k, a) visited → entry k entries ≡ some a
  pub complete : (k : String) (a : ℕ) → entry k entries ≡ some a → In (k, a) visited

-- Keys of which one matches differ.
differ :
    (k j pattern : String)
    → matches_pattern k pattern ≡ false
    → matches_pattern j pattern ≡ true
    → str_eq k j ≡ false
differ k j pattern miss hit = elim (Bool-cases (str_eq k j)) [
  | inr e ↦ e
  | inl e ↦
      absurd (ground (arith, miss, hit, ap (λ s. matches_pattern s pattern) ((eq_iff k j).0 e)))
]

pub entry-In : (k : String) (a : ℕ) (es : List (String × ℕ)) → entry k es ≡ some a → In (k, a) es
unfolding entry
entry-In k a [] e = absurd (ground arith)
entry-In k a ((j, b) ∷ es) e = elim (Bool-cases (str_eq k j)) [
  | inl q ↦ inl (ground (arith, q, eq_iff k j))
  | inr q ↦ inr (entry-In k a es (ground arith))
]

module _ {V : Type 0} (nil_value : V) where
  -- `InvalidatePattern`, with the entries of the map in the order in which the loop has them.
  unfoldable pub invalidate_pattern : String → List (String × ℕ) → LruCache V → LruCache V
  unfolding to_remove remove_node
  invalidate_pattern pattern visited c =
      let cleared = for_each (remove_node nil_value) (to_remove pattern visited) c in
      record cleared { size = length cleared.entries }

  pub removed-Shrinks :
      (addresses : List ℕ) (c : LruCache V)
      → Shrinks nil_value c (for_each (remove_node nil_value) addresses c)
  removed-Shrinks [] c = Shrinks-refl nil_value c
  removed-Shrinks (a ∷ addresses) c =
      Shrinks-trans nil_value c (remove_node nil_value a c) _ (remove_node-Shrinks nil_value a c)
        (removed-Shrinks addresses (remove_node nil_value a c))

  -- The removal of the nodes of other keys does not matter.
  removed-unmatched :
      (pattern k : String) (xs : List (String × ℕ)) (c : LruCache V)
      → matches_pattern k pattern ≡ false
      → ((j : String) (a : ℕ) → In (j, a) xs → (node_at nil_value a c).key ≡ j)
      → entry k (for_each (remove_node nil_value) (to_remove pattern xs) c).entries
        ≡ entry k c.entries
  unfolding to_remove node_at
  removed-unmatched pattern k [] c miss names = refl
  removed-unmatched pattern k ((j, b) ∷ xs) c miss names =
      let names_left : (i : String) (a : ℕ) → In (i, a) xs → (node_at nil_value a c).key ≡ i =
        λ i a m. names i a (inr m) in
      elim (Bool-cases (matches_pattern j pattern)) [
        | inr m ↦ rw (to_remove, m) (removed-unmatched pattern k xs c miss names_left)
        | inl m ↦
            let after = remove_node nil_value b c in
            let same = (remove_node-Shrinks nil_value b c).same in
            let other : str_eq k (node_at nil_value b c).key ≡ false =
              rw (names j b (inl refl)) (differ k j pattern miss m) in
            rw (to_remove, m)
              (removed-unmatched pattern k xs after miss
                  (λ i a h. ap (λ n. n.0) (same a) ∙ names_left i a h)
                ∙ remove_node-entry nil_value b k c other)
      ]

  -- What is not in the map does not come back.
  removed-gone :
      (addresses : List ℕ) (k : String) (c : LruCache V)
      → entry k c.entries ≡ none
      → entry k (for_each (remove_node nil_value) addresses c).entries ≡ none
  removed-gone addresses k c gone =
      let after = for_each (remove_node nil_value) addresses c in
      elim (Option-cases (entry k after.entries)) [
        | inl e ↦ e
        | inr (a, e) ↦ absurd (ground (arith, gone, (removed-Shrinks addresses c).kept k a e))
      ]

  -- The key of a removed node is not in the map.
  removed-matched :
      (pattern k : String) (a : ℕ) (xs : List (String × ℕ)) (c : LruCache V)
      → matches_pattern k pattern ≡ true
      → ((j : String) (b : ℕ) → In (j, b) xs → (node_at nil_value b c).key ≡ j)
      → In (k, a) xs
      → entry k (for_each (remove_node nil_value) (to_remove pattern xs) c).entries ≡ none
  unfolding to_remove node_at
  removed-matched pattern k a [] c hit names m = absurd m
  removed-matched pattern k a ((j, b) ∷ xs) c hit names m =
      let names_left : (i : String) (d : ℕ) → In (i, d) xs → (node_at nil_value d c).key ≡ i =
        λ i d h. names i d (inr h) in
      let after = remove_node nil_value b c in
      let same = (remove_node-Shrinks nil_value b c).same in
      let forgotten : j ≡ k
          → entry k (for_each (remove_node nil_value) (to_remove pattern xs) after).entries ≡ none =
        λ e. removed-gone (to_remove pattern xs) k after (
          subst (λ i. entry i after.entries ≡ none) (names j b (inl refl) ∙ e)
            (remove_node-forgets nil_value b c)) in
      elim m [
        | inl e ↦
            rw (to_remove, ap (λ t. matches_pattern t pattern) (ap (λ t. t.0) (sym e)) ∙ hit)
              (forgotten (ap (λ t. t.0) (sym e)))
        | inr h ↦ elim (Bool-cases (matches_pattern j pattern)) [
          | inr other ↦ rw (to_remove, other) (removed-matched pattern k a xs c hit names_left h)
          | inl e ↦
              rw (to_remove, e)
                (removed-matched pattern k a xs after hit
                  (λ i d g. ap (λ n. n.0) (same d) ∙ names_left i d g) h)
        ]
      ]

  get-expired :
      (key : String) (now accessed a : ℕ) (c : LruCache V)
      → entry key c.entries ≡ some a
      → has_expired (node_at nil_value a c).expires_at now ≡ true
      → (get nil_value key now accessed c).0 ≡ none
  unfolding get
  get-expired key now accessed a c e old = simp (e, old, get) refl

  -- `Get` depends on the entry of its key and on the content of the node alone.
  get-value :
      (key : String) (now accessed : ℕ) (c d : LruCache V)
      → entry key d.entries ≡ entry key c.entries
      → Shrinks nil_value c d
      → (get nil_value key now accessed d).0 ≡ (get nil_value key now accessed c).0
  unfolding node_at
  get-value key now accessed c d e s = elim (Option-cases (entry key c.entries)) [
    | inl f ↦
        get-miss nil_value key now accessed d (e ∙ f)
        ∙ sym (get-miss nil_value key now accessed c f)
    | inr (a, f) ↦
        let expiry : (node_at nil_value a d).expires_at ≡ (node_at nil_value a c).expires_at =
          ap (λ n. n.2) (s.same a) in
        elim (Bool-cases (has_expired (node_at nil_value a c).expires_at now)) [
          | inr fresh ↦
              rw
                (
                  get-hit nil_value key now accessed a c f fresh,
                  get-hit nil_value key now accessed a d (e ∙ f)
                      (ap (λ t. has_expired t now) expiry ∙ fresh),
                )
                (ap (λ n. some n.1) (s.same a))
          | inl old ↦
              get-expired key now accessed a d (e ∙ f) (ap (λ t. has_expired t now) expiry ∙ old)
              ∙ sym (get-expired key now accessed a c f old)
        ]
  ]

  -- After `InvalidatePattern`, in whichever order it goes through the map, `Get` of a key that
  -- matches the pattern is a miss, and `Get` of any other key returns what it would have returned
  -- before, on a cache whose map is right about the keys of its nodes.
  pub invalidate_pattern-get :
      (pattern : String) (visited : List (String × ℕ)) (key : String) (now accessed : ℕ)
      (c : LruCache V)
      → IsKeyed nil_value c
      → IsRange visited c.entries
      → (get nil_value key now accessed (invalidate_pattern pattern visited c)).0
        ≡ (if matches_pattern key pattern then none else (get nil_value key now accessed c).0)
  unfolding invalidate_pattern node_at
  invalidate_pattern-get pattern visited key now accessed c keyed range =
      let cleared = for_each (remove_node nil_value) (to_remove pattern visited) c in
      let s = removed-Shrinks (to_remove pattern visited) c in
      let t : Shrinks nil_value c (invalidate_pattern pattern visited c) = record {
        kept = s.kept;
        stored = s.stored;
        same = s.same;
      } in
      let names : (j : String) (a : ℕ) → In (j, a) visited → (node_at nil_value a c).key ≡ j =
        λ j a m. (keyed.keyed j a (range.present j a m)).1 in
      elim (Bool-cases (matches_pattern key pattern)) [
        | inr miss ↦
            rw miss (
              get-value key now accessed c _ (removed-unmatched pattern key visited c miss names) t)
        | inl hit ↦
            let gone : entry key cleared.entries ≡ none =
              elim (Option-cases (entry key c.entries)) [
                | inl e ↦ removed-gone (to_remove pattern visited) key c e
                | inr (a, e) ↦
                    removed-matched pattern key a visited c hit names (range.complete key a e)
              ] in
            rw hit (get-miss nil_value key now accessed _ gone)
      ]
