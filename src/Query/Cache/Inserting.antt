-- ===== src/Query/Cache/Inserting.antt =====
-- `Set` of the cache (query/cache/cache.go): what it stores, and what it loses.
use prisma_go.Base.{
  get_or-append, get_or-last, ℕ, ◌+◌, ◌≡◌, refl, sym, ap, ◌∙◌, if◌then◌else◌, false, String, str_eq,
  eq_iff, [], ◌∷◌, ◌⊎◌, none, some, length, length-append, arith, inl, inr, Bool-cases, ℤ, is_zero,
}
use prisma_go.Query.Cache.{
  CacheNode, LruCache, entry, is_full, is_head, has_expired, expiry, node_at, write_node,
  add_to_front, move_to_front, make_room, allocate, insert_node, get, set,
}
use prisma_go.Query.Cache.Entries.{
  get_or-update_at, IsKeyed, Shrinks, content, Shrinks-IsKeyed, Shrinks-refl, entry-delete_old,
  add_to_front-Shrinks, move_to_front-forgets, evict_lru-Shrinks, get-hit, get-miss,
}

module _ {V : Type 0} (nil_value : V) where
  pub make_room-Shrinks : (c : LruCache V) → Shrinks nil_value c (make_room nil_value c)
  unfolding make_room node_at
  make_room-Shrinks c = elim (Bool-cases (is_full (length c.entries) c.max_size)) [
    | inl e ↦
        let s = evict_lru-Shrinks nil_value c in
        simp (e, make_room) (record { kept = s.kept; stored = s.stored; same = s.same })
    | inr e ↦ simp (e, make_room) (Shrinks-refl nil_value c)
  ]

  -- The new node, when it has been put at the front.
  insert_node-content :
      (n : CacheNode V) (c : LruCache V)
      → content nil_value (node_at nil_value (length c.store) (insert_node nil_value n c))
        ≡ content nil_value n
  unfolding insert_node allocate node_at
  insert_node-content n c =
      (add_to_front-Shrinks nil_value (length c.store) (allocate nil_value n c)).same
        (length c.store)
      ∙ ap (content nil_value) (get_or-last c.store n _)

  insert_node-entry :
      (n : CacheNode V) (c : LruCache V)
      → entry n.key (insert_node nil_value n c).entries ≡ some (length c.store)
  unfolding insert_node entry
  insert_node-entry n c = ground (arith, eq_iff n.key n.key)

  insert_node-get :
      (n : CacheNode V) (later again : ℕ) (c : LruCache V)
      → has_expired n.expires_at later ≡ false
      → (get nil_value n.key later again (insert_node nil_value n c)).0 ≡ some n.value
  insert_node-get n later again c fresh =
      let a = length c.store in
      let same = insert_node-content n c in
      let still : has_expired (node_at nil_value a (insert_node nil_value n c)).expires_at later
          ≡ false =
        ap (λ t. has_expired t.2 later) same ∙ fresh in
      ap (λ r. r.0)
        (get-hit nil_value n.key later again a (insert_node nil_value n c) (insert_node-entry n c)
          still)
      ∙ ap (λ t. some t.1) same

  -- A value stored under a key that the map does not have is returned by `Get` while it has not
  -- expired, whether another entry is evicted for it or not.
  pub set-get :
      (key : String) (value : V) (ttl : ℤ) (now accessed later again : ℕ) (c : LruCache V)
      → entry key c.entries ≡ none
      → has_expired (expiry (if is_zero ttl then c.default_ttl else ttl) now) later ≡ false
      → (get nil_value key later again (set nil_value key value ttl now accessed c)).0 ≡ some value
  unfolding set
  set-get key value ttl now accessed later again c e fresh =
      simp (e, set) (insert_node-get _ later again (make_room nil_value c) fresh)

  -- In a cache whose map is right about the keys of its nodes, `Set` for a key whose node is not at
  -- the head takes the key out of the map, so that the next `Get` of the key is a miss and the
  -- value is lost.
  pub set-forgets :
      (key : String) (value : V) (ttl : ℤ) (now accessed later again b : ℕ) (c : LruCache V)
      → IsKeyed nil_value c
      → entry key c.entries ≡ some b
      → is_head c.head b ≡ false
      → (get nil_value key later again (set nil_value key value ttl now accessed c)).0 ≡ none
  unfolding set
  set-forgets key value ttl now accessed later again b c h e behind =
      let expires = expiry (if is_zero ttl then c.default_ttl else ttl) now in
      let rewrite : CacheNode V → CacheNode V =
        λ n. record n { value = value; expires_at = expires; access_time = accessed } in
      let written = write_node nil_value b rewrite c in
      let its_key : (node_at nil_value b written).key ≡ key =
        unfold write_node node_at in
        (get_or-update_at (λ (n : CacheNode V). n.key) b b rewrite c.store _ (λ n. refl)
          ∙ (h.keyed key b e).1) in
      let gone : entry key (move_to_front nil_value b written).entries ≡ none =
        sym (ap (λ k. entry k (move_to_front nil_value b written).entries) its_key)
        ∙ move_to_front-forgets nil_value b written behind in
      simp (e, set) (get-miss nil_value key later again (move_to_front nil_value b written) gone)

  allocate-IsKeyed :
      (n : CacheNode V) (c : LruCache V)
      → IsKeyed nil_value c
      → IsKeyed nil_value (allocate nil_value n c)
  unfolding allocate node_at
  allocate-IsKeyed n c h = record {
    keyed = λ k a e.
        let (lt, at) = h.keyed k a e in
        (
          omega (arith, length-append {0} c.store (n ∷ [])),
          ap (λ (m : CacheNode V). m.key) (get_or-append c.store (n ∷ []) a _ lt) ∙ at,
        );
  }

  -- Where an entry comes from.
  inserted_entry :
      (n : CacheNode V) (c : LruCache V) (k : String) (a : ℕ)
      → entry k (insert_node nil_value n c).entries ≡ some a
      → ((k ≡ n.key) × (a ≡ length c.store))
        ⊎ (entry k (add_to_front nil_value (length c.store) (allocate nil_value n c)).entries
            ≡ some a)
  unfolding insert_node entry
  inserted_entry n c k a e = elim (Bool-cases (str_eq k n.key)) [
    | inl q ↦ inl ((eq_iff k n.key).0 q, ground arith)
    | inr q ↦ inr (entry-delete_old n.key k a _ (ground arith))
  ]

  length-insert_node :
      (n : CacheNode V) (c : LruCache V)
      → length (insert_node nil_value n c).store ≡ length c.store + 1
  unfolding insert_node allocate
  length-insert_node n c =
      (add_to_front-Shrinks nil_value (length c.store) (allocate nil_value n c)).stored
      ∙ length-append {0} c.store (n ∷ [])
      ∙ omega arith

  pub insert_node-IsKeyed :
      (n : CacheNode V) (c : LruCache V)
      → IsKeyed nil_value c
      → IsKeyed nil_value (insert_node nil_value n c)
  insert_node-IsKeyed n c h = record {
    keyed = λ k a e. elim (inserted_entry n c k a e) [
      | inl (name, at) ↦ rw at (
        omega (arith, length-insert_node n c),
        ap (λ t. t.0) (insert_node-content n c) ∙ sym name,
      )
      | inr old ↦ unfold insert_node node_at in before.keyed k a old
    ];
  }
    where
      added : LruCache V
      added = add_to_front nil_value (length c.store) (allocate nil_value n c)

      before : IsKeyed nil_value added
      before =
          Shrinks-IsKeyed nil_value (allocate nil_value n c) added
            (add_to_front-Shrinks nil_value (length c.store) (allocate nil_value n c))
            (allocate-IsKeyed n c h)
