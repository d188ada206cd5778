-- ===== src/Query/Cache/Entries.antt =====
-- What the operations of the cache (query/cache/cache.go) do to the map, and which key the node has
-- that the map has for a key.
use prisma_go.Base.{
  ℕ, zero, suc, ◌+◌, ◌%◌, ◌^◌, ◌≡◌, ◌<◌, refl, ap, ◌∙◌, false, ◌&&◌, inl, inr, String, str_eq,
  eq_iff, List, [], ◌∷◌, Option, none, some, length, get_or, ltb, arith, Bool-cases, Option-cases,
}
use prisma_go.Query.Cache.{
  CacheNode, LruCache, count_up, entry, delete, is_head, has_expired, update_at, node_at,
  write_node, add_to_front, unlink_prev, unlink_next, remove_node, move_to_front, evict_lru,
  update_hit_rate, touch, get,
}

pub entry-delete : (key : String) (es : List (String × ℕ)) → entry key (delete key es) ≡ none
unfolding entry delete
entry-delete key [] = refl
entry-delete key ((k, a) ∷ es) = ground (arith, entry-delete key es)

-- What is left was there.
pub entry-delete_old :
    (key k : String) (a : ℕ) (es : List (String × ℕ))
    → entry k (delete key es) ≡ some a
    → entry k es ≡ some a
unfolding entry delete
entry-delete_old key k a [] e = e
entry-delete_old key k a ((j, b) ∷ es) e =
    ground (arith, entry-delete_old key k a es, entry-delete key es, eq_iff k j, eq_iff key j)

-- Deleting another key does not matter.
pub entry-delete_other :
    (key k : String) (es : List (String × ℕ))
    → str_eq k key ≡ false
    → entry k (delete key es) ≡ entry k es
unfolding entry delete
entry-delete_other key k [] e = refl
entry-delete_other key k ((j, b) ∷ es) e =
    ground (arith, entry-delete_other key k es e, eq_iff k j, eq_iff key j, eq_iff k key)

pub length-update_at :
    {A : Type 0} (a : ℕ) (f : A → A) (xs : List A) → length (update_at a f xs) ≡ length xs
unfolding update_at
length-update_at a f [] = refl
length-update_at zero f (x ∷ xs) = refl
length-update_at (suc a) f (x ∷ xs) = omega (arith, length-update_at a f xs)

-- An update that keeps a part of every element keeps it at each place.
pub get_or-update_at :
    {A : Type 0} {B : Type 0} (part : A → B) (a b : ℕ) (f : A → A) (xs : List A) (d : A)
    → ((x : A) → part (f x) ≡ part x)
    → part (get_or (update_at a f xs) b d) ≡ part (get_or xs b d)
unfolding update_at
get_or-update_at part a b f [] d keep = refl
get_or-update_at part zero zero f (x ∷ xs) d keep = keep x
get_or-update_at part zero (suc b) f (x ∷ xs) d keep = refl
get_or-update_at part (suc a) zero f (x ∷ xs) d keep = refl
get_or-update_at part (suc a) (suc b) f (x ∷ xs) d keep = get_or-update_at part a b f xs d keep

module _ {V : Type 0} (nil_value : V) where
  -- The parts of a node that its place in the list does not change.
  abbrev pub content : CacheNode V → String × V × Option ℕ
  content n = (n.key, n.value, n.expires_at)

  -- The nodes stay the same but for their links and access times, and no entry is new.
  pub record Shrinks (c after : LruCache V) : Type 0 where
    pub kept : (k : String) (a : ℕ) → entry k after.entries ≡ some a → entry k c.entries ≡ some a
    pub stored : length after.store ≡ length c.store
    pub same : (a : ℕ) → content (node_at nil_value a after) ≡ content (node_at nil_value a c)

  pub Shrinks-refl : (c : LruCache V) → Shrinks c c
  Shrinks-refl c = record { kept = λ k a e. e; stored = refl; same = λ a. refl }

  pub Shrinks-trans : (c d e : LruCache V) → Shrinks c d → Shrinks d e → Shrinks c e
  Shrinks-trans c d e f g = record {
    kept = λ k a h. f.kept k a (g.kept k a h);
    stored = g.stored ∙ f.stored;
    same = λ a. g.same a ∙ f.same a;
  }

  pub write_node-Shrinks :
      (a : ℕ) (f : CacheNode V → CacheNode V) (c : LruCache V)
      → ((n : CacheNode V) → content (f n) ≡ content n)
      → Shrinks c (write_node nil_value a f c)
  unfolding write_node node_at
  write_node-Shrinks a f c keep = record {
    kept = λ k b e. e;
    stored = length-update_at a f c.store;
    same = λ b. get_or-update_at content a b f c.store _ keep;
  }

  -- The head, the tail and the counters do not matter.
  relinked :
      (c d : LruCache V) (h t : Option ℕ)
      → Shrinks c d
      → Shrinks c (record d { head = h; tail = t })
  unfolding node_at
  relinked c d h t s = record { kept = s.kept; stored = s.stored; same = s.same }

  pub add_to_front-Shrinks : (a : ℕ) (c : LruCache V) → Shrinks c (add_to_front nil_value a c)
  unfolding add_to_front
  add_to_front-Shrinks a c = elim (Option-cases c.head) [
    | inl e ↦ simp (e, add_to_front) (relinked c c (some a) (some a) (Shrinks-refl c))
    | inr (h, e) ↦
        simp (e, add_to_front)
          (relinked c _ (some a) _ (
            Shrinks-trans c _ _
              (write_node-Shrinks a (λ n. record n { next = some h }) c (λ n. refl))
              (write_node-Shrinks h (λ n. record n { prev = some a }) _ (λ n. refl))))
  ]

  unlink_prev-Shrinks : (a : ℕ) (c : LruCache V) → Shrinks c (unlink_prev nil_value a c)
  unfolding unlink_prev
  unlink_prev-Shrinks a c = elim (Option-cases (node_at nil_value a c).prev) [
    | inl e ↦ rw (e, unlink_prev) (relinked c c _ _ (Shrinks-refl c))
    | inr (p, e) ↦ rw (e, unlink_prev) (write_node-Shrinks p _ c (λ n. refl))
  ]

  unlink_next-Shrinks : (a : ℕ) (c : LruCache V) → Shrinks c (unlink_next nil_value a c)
  unfolding unlink_next
  unlink_next-Shrinks a c = elim (Option-cases (node_at nil_value a c).next) [
    | inl e ↦ rw (e, unlink_next) (relinked c c _ _ (Shrinks-refl c))
    | inr (p, e) ↦ rw (e, unlink_next) (write_node-Shrinks p _ c (λ n. refl))
  ]

  pub remove_node-Shrinks : (a : ℕ) (c : LruCache V) → Shrinks c (remove_node nil_value a c)
  unfolding remove_node node_at
  remove_node-Shrinks a c =
      let s =
        Shrinks-trans c (unlink_prev nil_value a c) _ (unlink_prev-Shrinks a c)
          (unlink_next-Shrinks a (unlink_prev nil_value a c)) in
      record {
        kept = λ k b e. s.kept k b (entry-delete_old _ k b _ e);
        stored = s.stored;
        same = s.same;
      }

  pub move_to_front-Shrinks : (a : ℕ) (c : LruCache V) → Shrinks c (move_to_front nil_value a c)
  unfolding move_to_front
  move_to_front-Shrinks a c = elim (Bool-cases (is_head c.head a)) [
    | inl e ↦ simp (e, move_to_front) (Shrinks-refl c)
    | inr e ↦
        simp (e, move_to_front)
          (Shrinks-trans c (remove_node nil_value a c) _ (remove_node-Shrinks a c)
            (add_to_front-Shrinks a (remove_node nil_value a c)))
  ]

  pub evict_lru-Shrinks : (c : LruCache V) → Shrinks c (evict_lru nil_value c)
  unfolding evict_lru
  evict_lru-Shrinks c = elim (Option-cases c.tail) [
    | inl e ↦ simp (e, evict_lru) (Shrinks-refl c)
    | inr (t, e) ↦ simp (e, evict_lru) (remove_node-Shrinks t c)
  ]

  -- The map has for a key the address of a node with this key.
  pub record IsKeyed (c : LruCache V) : Type 0 where
    pub keyed :
        (k : String) (a : ℕ)
        → entry k c.entries ≡ some a
        → (a < length c.store) × ((node_at nil_value a c).key ≡ k)

  pub Shrinks-IsKeyed : (c d : LruCache V) → Shrinks c d → IsKeyed c → IsKeyed d
  Shrinks-IsKeyed c d s h = record {
    keyed = λ k a e.
        let (lt, at) = h.keyed k a (s.kept k a e) in
        (omega (arith, s.stored), ap (λ n. n.0) (s.same a) ∙ at);
  }

  unlink_prev-entries : (a : ℕ) (c : LruCache V) → (unlink_prev nil_value a c).entries ≡ c.entries
  unfolding unlink_prev
  unlink_prev-entries a c = elim (Option-cases (node_at nil_value a c).prev) [
    | inl e ↦ rw (e, unlink_prev) refl
    | inr (p, e) ↦ rw (e, unlink_prev) refl
  ]

  unlink_next-entries : (a : ℕ) (c : LruCache V) → (unlink_next nil_value a c).entries ≡ c.entries
  unfolding unlink_next
  unlink_next-entries a c = elim (Option-cases (node_at nil_value a c).next) [
    | inl e ↦ rw (e, unlink_next) refl
    | inr (p, e) ↦ rw (e, unlink_next) refl
  ]

  -- The removal of a node takes its key out of the map, and no other.
  pub remove_node-entry :
      (a : ℕ) (k : String) (c : LruCache V)
      → str_eq k (node_at nil_value a c).key ≡ false
      → entry k (remove_node nil_value a c).entries ≡ entry k c.entries
  unfolding remove_node
  remove_node-entry a k c other =
      entry-delete_other (node_at nil_value a c).key k _ other
      ∙ ap (entry k) (unlink_next-entries a (unlink_prev nil_value a c) ∙ unlink_prev-entries a c)

  -- A removed node's key is not in the map.
  pub remove_node-forgets :
      (a : ℕ) (c : LruCache V)
      → entry (node_at nil_value a c).key (remove_node nil_value a c).entries ≡ none
  unfolding remove_node
  remove_node-forgets a c = entry-delete (node_at nil_value a c).key _

  pub add_to_front-entries :
      (a : ℕ) (c : LruCache V) → (add_to_front nil_value a c).entries ≡ c.entries
  unfolding add_to_front
  add_to_front-entries a c = elim (Option-cases c.head) [
    | inl e ↦ simp (e, add_to_front) refl
    | inr (h, e) ↦ simp (e, add_to_front) refl
  ]

  -- Moving a node that is not at the head to the front takes its key out of the map.
  pub move_to_front-forgets :
      (a : ℕ) (c : LruCache V)
      → is_head c.head a ≡ false
      → entry (node_at nil_value a c).key (move_to_front nil_value a c).entries ≡ none
  unfolding move_to_front
  move_to_front-forgets a c e =
      rw e (rw (add_to_front-entries a (remove_node nil_value a c)) (remove_node-forgets a c))

  -- The counters aside, nothing changes.
  pub update_hit_rate-Shrinks :
      (c : LruCache V)
      → ((update_hit_rate nil_value c).entries ≡ c.entries)
        × Shrinks c (update_hit_rate nil_value c)
  unfolding update_hit_rate node_at
  update_hit_rate-Shrinks c =
      let total = (c.hits + c.misses) % 2 ^ 64 in
      elim (Bool-cases (ltb 0 total && ltb total (2 ^ 63))) [
        | inl e ↦
            simp (e, update_hit_rate)
              (refl, record { kept = λ k a h. h; stored = refl; same = λ a. refl })
        | inr e ↦
            simp (e, update_hit_rate)
              (refl, record { kept = λ k a h. h; stored = refl; same = λ a. refl })
      ]

  pub touch-Shrinks :
      (a accessed : ℕ) (c : LruCache V)
      → ((touch nil_value a accessed c).entries ≡ (move_to_front nil_value a c).entries)
        × Shrinks c (touch nil_value a accessed c)
  unfolding touch
  touch-Shrinks a accessed c =
      let moved = move_to_front nil_value a c in
      let timed = write_node nil_value a (λ n. record n { access_time = accessed }) moved in
      let counted : LruCache V = record timed { hits = count_up timed.hits } in
      let s : Shrinks c timed =
        Shrinks-trans c moved timed (move_to_front-Shrinks a c)
          (write_node-Shrinks a _ moved (λ n. refl)) in
      let t : Shrinks c counted =
        unfold node_at in record { kept = s.kept; stored = s.stored; same = s.same } in
      (
        (update_hit_rate-Shrinks counted).0,
        Shrinks-trans c counted _ t (update_hit_rate-Shrinks counted).1,
      )

  pub get-miss :
      (key : String) (now accessed : ℕ) (c : LruCache V)
      → entry key c.entries ≡ none
      → (get nil_value key now accessed c).0 ≡ none
  unfolding get
  get-miss key now accessed c e = simp (e, get) refl

  pub get-hit :
      (key : String) (now accessed a : ℕ) (c : LruCache V)
      → entry key c.entries ≡ some a
      → has_expired (node_at nil_value a c).expires_at now ≡ false
      → get nil_value key now accessed c
        ≡ (some (node_at nil_value a c).value, touch nil_value a accessed c)
  unfolding get
  get-hit key now accessed a c e fresh =
      let value = ap (λ n. n.1) ((touch-Shrinks a accessed c).1.same a) in
      simp (e, fresh, get) (ap (λ (v : V). (some v, touch nil_value a accessed c)) value)

  -- In a cache whose map is right about the keys of its nodes, a hit on a key whose node is not at
  -- the head returns its value and takes the key out of the map, so that the next `Get` of the key
  -- is a miss, whatever the clock says.
  pub get-forgets :
      (key : String) (now accessed later again a : ℕ) (c : LruCache V)
      → IsKeyed c
      → entry key c.entries ≡ some a
      → is_head c.head a ≡ false
      → has_expired (node_at nil_value a c).expires_at now ≡ false
      → let (value, after) = get nil_value key now accessed c in
        (value ≡ some (node_at nil_value a c).value)
        × ((get nil_value key later again after).0 ≡ none)
  get-forgets key now accessed later again a c h e behind fresh =
      let gone : entry key (touch nil_value a accessed c).entries ≡ none =
        rw (touch-Shrinks a accessed c).0
          (rw ((h.keyed key a e).1) at (move_to_front-forgets a c behind)) in
      rw (get-hit key now accessed a c e fresh)
        (refl, get-miss key later again (touch nil_value a accessed c) gone)
