-- ===== src/Query/Cache/Reachable.antt =====
-- The caches that the operations of query/cache/cache.go reach from a new one.
use prisma_go.Base.{
  ℕ, ◌≡◌, refl, sym, ap, ◌∙◌, if◌then◌else◌, String, List, [], none, some, arith, inl, inr,
  Bool-cases, Option-cases, for_each, for_each_inv, ℤ, is_zero,
}
use prisma_go.Query.Cache.{
  CacheNode, LruCache, entry, has_expired, expiry, node_at, write_node, remove_node, make_room,
  new_lru_cache, get, set, invalidate, clear, get_stats,
}
use prisma_go.Query.Cache.Entries.{
  length-update_at, get_or-update_at, IsKeyed, Shrinks-IsKeyed, move_to_front-Shrinks,
  remove_node-Shrinks, remove_node-forgets, update_hit_rate-Shrinks, touch-Shrinks, get-miss,
}
use prisma_go.Query.Cache.Patterns.{invalidate_pattern, to_remove, removed-Shrinks}
use prisma_go.Query.Cache.Inserting.{make_room-Shrinks, insert_node-IsKeyed}

-- A call of the cache, with the readings of the clock.
pub data Call (V : Type 0) : Type 0 where
  get_call : String → ℕ → ℕ → Call V
  set_call : String → V → ℤ → ℕ → ℕ → Call V
  invalidate_call : String → Call V
  -- With the entries of the map in the order of the loop over it.
  invalidate_pattern_call : String → List (String × ℕ) → Call V
  get_stats_call : Call V
  clear_call : Call V

module _ {V : Type 0} (nil_value : V) where
  unfoldable pub call : Call V → LruCache V → LruCache V
  unfolding get set invalidate invalidate_pattern get_stats clear
  call (get_call key now accessed) c = (get nil_value key now accessed c).1
  call (set_call key value ttl now accessed) c = set nil_value key value ttl now accessed c
  call (invalidate_call key) c = invalidate nil_value key c
  call (invalidate_pattern_call pattern visited) c = invalidate_pattern nil_value pattern visited c
  call get_stats_call c = (get_stats nil_value c).1
  call clear_call c = clear nil_value c

  get-IsKeyed :
      (key : String) (now accessed : ℕ) (c : LruCache V)
      → IsKeyed nil_value c
      → IsKeyed nil_value (get nil_value key now accessed c).1
  unfolding get node_at
  get-IsKeyed key now accessed c h = elim (Option-cases (entry key c.entries)) [
    | inl e ↦ simp (e, get) (record { keyed = h.keyed })
    | inr (a, e) ↦ elim (Bool-cases (has_expired (node_at nil_value a c).expires_at now)) [
      | inl x ↦
          let r = Shrinks-IsKeyed nil_value c _ (remove_node-Shrinks nil_value a c) h in
          simp (e, x, get) (record { keyed = r.keyed })
      | inr x ↦
          let t = Shrinks-IsKeyed nil_value c _ (touch-Shrinks nil_value a accessed c).1 h in
          simp (e, x, get) t
    ]
  ]

  invalidate-IsKeyed :
      (key : String) (c : LruCache V)
      → IsKeyed nil_value c
      → IsKeyed nil_value (invalidate nil_value key c)
  unfolding invalidate node_at
  invalidate-IsKeyed key c h = elim (Option-cases (entry key c.entries)) [
    | inl e ↦ simp (e, invalidate) h
    | inr (a, e) ↦
        let r = Shrinks-IsKeyed nil_value c _ (remove_node-Shrinks nil_value a c) h in
        simp (e, invalidate) (record { keyed = r.keyed })
  ]

  invalidate_pattern-IsKeyed :
      (pattern : String) (visited : List (String × ℕ)) (c : LruCache V)
      → IsKeyed nil_value c
      → IsKeyed nil_value (invalidate_pattern nil_value pattern visited c)
  unfolding invalidate_pattern node_at
  invalidate_pattern-IsKeyed pattern visited c h =
      let r =
        Shrinks-IsKeyed nil_value c _ (removed-Shrinks nil_value (to_remove pattern visited) c) h in
      record { keyed = r.keyed }

  get_stats-IsKeyed :
      (c : LruCache V) → IsKeyed nil_value c → IsKeyed nil_value (get_stats nil_value c).1
  unfolding get_stats
  get_stats-IsKeyed c h = Shrinks-IsKeyed nil_value c _ (update_hit_rate-Shrinks nil_value c).1 h

  write_node-IsKeyed :
      (b : ℕ) (f : CacheNode V → CacheNode V) (c : LruCache V)
      → ((n : CacheNode V) → (f n).key ≡ n.key)
      → IsKeyed nil_value c
      → IsKeyed nil_value (write_node nil_value b f c)
  unfolding write_node node_at
  write_node-IsKeyed b f c keep h = record {
    keyed = λ k a e.
        let (lt, at) = h.keyed k a e in
        (
          omega (arith, length-update_at b f c.store),
          get_or-update_at (λ (n : CacheNode V). n.key) b a f c.store _ keep ∙ at,
        );
  }

  set-IsKeyed :
      (key : String) (value : V) (ttl : ℤ) (now accessed : ℕ) (c : LruCache V)
      → IsKeyed nil_value c
      → IsKeyed nil_value (set nil_value key value ttl now accessed c)
  unfolding set
  set-IsKeyed key value ttl now accessed c h =
      let expires = expiry (if is_zero ttl then c.default_ttl else ttl) now in
      let rewrite : CacheNode V → CacheNode V =
        λ n. record n { value = value; expires_at = expires; access_time = accessed } in
      elim (Option-cases (entry key c.entries)) [
        | inl e ↦
            simp (e, set)
              (insert_node-IsKeyed nil_value _ (make_room nil_value c)
                (Shrinks-IsKeyed nil_value c _ (make_room-Shrinks nil_value c) h))
        | inr (b, e) ↦
            let written = write_node nil_value b rewrite c in
            simp (e, set)
              (Shrinks-IsKeyed nil_value written _ (move_to_front-Shrinks nil_value b written)
                (write_node-IsKeyed b rewrite c (λ n. refl) h))
      ]

  clear-IsKeyed : (c : LruCache V) → IsKeyed nil_value (clear nil_value c)
  unfolding clear
  clear-IsKeyed c =
      let emptied : LruCache V = record c {
        entries = [];
        head = none;
        tail = none;
        size = 0;
        hits = 0;
        misses = 0;
        stats_evictions = 0;
        evictions = 0;
      } in
      let no_entry : (k : String) (a : ℕ) → entry k [] ≡ some a → ⊥ =
        unfold entry in λ k a e. ground arith in
      Shrinks-IsKeyed nil_value emptied _ (update_hit_rate-Shrinks nil_value emptied).1
        (record { keyed = λ k a e. absurd (no_entry k a e) })

  call-IsKeyed :
      (op : Call V) (c : LruCache V) → IsKeyed nil_value c → IsKeyed nil_value (call op c)
  unfolding call
  call-IsKeyed (get_call key now accessed) c h = get-IsKeyed key now accessed c h
  call-IsKeyed (set_call key value ttl now accessed) c h =
      set-IsKeyed key value ttl now accessed c h
  call-IsKeyed (invalidate_call key) c h = invalidate-IsKeyed key c h
  call-IsKeyed (invalidate_pattern_call pattern visited) c h =
      invalidate_pattern-IsKeyed pattern visited c h
  call-IsKeyed get_stats_call c h = get_stats-IsKeyed c h
  call-IsKeyed clear_call c h = clear-IsKeyed c

  -- After any calls of `Get`, `Set`, `Invalidate`, `InvalidatePattern`, `GetStats` and `Clear` on a
  -- new cache, each key that the map has belongs to a node that exists and has this key.
  pub calls-IsKeyed :
      (calls : List (Call V)) (max_size default_ttl : ℤ)
      → IsKeyed nil_value (for_each call calls (new_lru_cache nil_value max_size default_ttl))
  calls-IsKeyed calls max_size default_ttl =
      for_each_inv (IsKeyed nil_value) call calls (λ op c _ h. call-IsKeyed op c h) _ fresh
    where
      fresh : IsKeyed nil_value (new_lru_cache nil_value max_size default_ttl)
      fresh = record { keyed = λ k a e. unfold new_lru_cache entry in ground arith }

  -- After `Invalidate` on a cache whose map is right about the keys of its nodes, `Get` of the key
  -- is a miss.
  pub invalidate-get :
      (key : String) (now accessed : ℕ) (c : LruCache V)
      → IsKeyed nil_value c
      → (get nil_value key now accessed (invalidate nil_value key c)).0 ≡ none
  unfolding invalidate
  invalidate-get key now accessed c h = elim (Option-cases (entry key c.entries)) [
    | inl e ↦ simp (e, invalidate) (get-miss nil_value key now accessed c e)
    | inr (a, e) ↦
        let removed = remove_node nil_value a c in
        let gone : entry key removed.entries ≡ none =
          sym (ap (λ k. entry k removed.entries) (h.keyed key a e).1)
          ∙ remove_node-forgets nil_value a c in
        simp (e, invalidate) (get-miss nil_value key now accessed _ gone)
  ]
