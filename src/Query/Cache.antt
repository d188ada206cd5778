-- ===== src/Query/Cache.antt =====
-- The cache of query results (query/cache/cache.go): `LRUCache`, a map from keys to the nodes of a
-- doubly linked list. The nodes stand in a store and point to each other by their addresses, as the
-- code reaches one node by several pointers.
--
-- A time is a number, the zero time is none. The clock is read where the code reads it, and its
-- readings are arguments. Each operation holds the lock, so it is one step. The counters are the
-- bits of an int64; the hit rate is kept as the two numbers it is computed from.
pub mod Entries
pub mod Inserting
pub mod Reachable
pub mod Patterns
pub mod Splitting
mod Tests
use prisma_go.Base.{
  ℕ, zero, suc, ◌+◌, ◌%◌, ◌^◌, if◌then◌else◌, Bool, true, false, ◌&&◌, not, String, str_eq, List,
  [], ◌∷◌, ◌++◌, Option, none, some, length, get_or, ltb, leb, ◌==◌, ℤ, pos, negsuc, is_positive,
  is_zero,
}

pub record CacheNode (V : Type 0) : Type 0 where
  pub key : String
  pub value : V
  pub expires_at : Option ℕ
  pub access_time : ℕ
  pub prev : Option ℕ
  pub next : Option ℕ

pub record LruCache (V : Type 0) : Type 0 where
  -- Every node there has been, by its address.
  pub store : List (CacheNode V)
  -- `data`
  pub entries : List (String × ℕ)
  pub max_size : ℤ
  pub default_ttl : ℤ
  pub head : Option ℕ
  pub tail : Option ℕ
  pub hits : ℕ
  pub misses : ℕ
  pub size : ℕ
  -- `stats.Evictions` and `evictions`.
  pub stats_evictions : ℕ
  pub evictions : ℕ
  -- The hits and the total behind `stats.HitRate`, when it was last computed.
  pub hit_rate : Option (ℕ × ℕ)

-- `Stats`
pub record Stats : Type 0 where
  pub hits : ℕ
  pub misses : ℕ
  pub size : ℕ
  pub max_size : ℤ
  pub evictions : ℕ
  pub hit_rate : Option (ℕ × ℕ)

unfoldable pub count_up : ℕ → ℕ
count_up n = (n + 1) % 2 ^ 64

-- `c.data[key]`
unfoldable pub entry : String → List (String × ℕ) → Option ℕ
entry key [] = none
entry key ((k, a) ∷ entries) = if str_eq key k then some a else entry key entries

-- `delete(c.data, key)`
unfoldable pub delete : String → List (String × ℕ) → List (String × ℕ)
delete key [] = []
delete key ((k, a) ∷ entries) =
    let rest = delete key entries in if str_eq key k then rest else (k, a) ∷ rest

-- `len(c.entries) >= c.maxSize`
unfoldable pub is_full : ℕ → ℤ → Bool
is_full n (pos m) = leb m n
is_full n (negsuc m) = true

unfoldable pub is_head : Option ℕ → ℕ → Bool
is_head none a = false
is_head (some h) a = h == a

-- `!expiresAt.IsZero() && time.Now().After(expiresAt)`
unfoldable pub has_expired : Option ℕ → ℕ → Bool
has_expired none now = false
has_expired (some e) now = ltb e now

-- `now.Add(ttl)` for a positive ttl.
unfoldable pub expiry : ℤ → ℕ → Option ℕ
expiry (pos zero) now = none
expiry (pos (suc n)) now = some (now + suc n)
expiry (negsuc n) now = none

unfoldable pub update_at : {A : Type 0} → ℕ → (A → A) → List A → List A
update_at a f [] = []
update_at zero f (x ∷ xs) = f x ∷ xs
update_at (suc a) f (x ∷ xs) = x ∷ update_at a f xs

module _ {V : Type 0} (nil_value : V) where
  -- The node at an address; the code has no other addresses than those of nodes.
  unfoldable pub node_at : ℕ → LruCache V → CacheNode V
  node_at a c = get_or c.store a (record {
    key = "";
    value = nil_value;
    expires_at = none;
    access_time = 0;
    prev = none;
    next = none;
  })

  unfoldable pub write_node : ℕ → (CacheNode V → CacheNode V) → LruCache V → LruCache V
  unfolding update_at
  write_node a f c = record c { store = update_at a f c.store }

  -- `addToFront`
  unfoldable pub add_to_front : ℕ → LruCache V → LruCache V
  unfolding write_node
  add_to_front a c = elim c.head [
    | none ↦ record c { head = some a; tail = some a }
    | some h ↦
        let linked = write_node a (λ n. record n { next = some h }) c in
        record (write_node h (λ n. record n { prev = some a }) linked) { head = some a }
  ]

  -- The link to a node from the one before it, or the head.
  unfoldable pub unlink_prev : ℕ → LruCache V → LruCache V
  unfolding write_node node_at
  unlink_prev a c =
      let n = node_at a c in
      elim n.prev [
        | some p ↦ write_node p (λ m. record m { next = n.next }) c
        | none ↦ record c { head = n.next }
      ]

  -- The link to a node from the one behind it, or the tail.
  unfoldable pub unlink_next : ℕ → LruCache V → LruCache V
  unfolding write_node node_at
  unlink_next a c =
      let n = node_at a c in
      elim n.next [
        | some q ↦ write_node q (λ m. record m { prev = n.prev }) c
        | none ↦ record c { tail = n.prev }
      ]

  -- `removeNode`
  unfoldable pub remove_node : ℕ → LruCache V → LruCache V
  unfolding unlink_prev unlink_next node_at delete
  remove_node a c =
      let unlinked = unlink_next a (unlink_prev a c) in
      record unlinked { entries = delete (node_at a c).key unlinked.entries }

  -- `moveToFront`
  unfoldable pub move_to_front : ℕ → LruCache V → LruCache V
  unfolding remove_node add_to_front is_head
  move_to_front a c = if is_head c.head a then c else add_to_front a (remove_node a c)

  -- `evictLRU`
  unfoldable pub evict_lru : LruCache V → LruCache V
  unfolding remove_node
  evict_lru c = elim c.tail [ none ↦ c | some t ↦ remove_node t c ]

  -- `updateHitRate`; the total is tested as a signed number.
  unfoldable pub update_hit_rate : LruCache V → LruCache V
  update_hit_rate c =
      let total = (c.hits + c.misses) % 2 ^ 64 in
      if ltb 0 total && ltb total (2 ^ 63) then record c { hit_rate = some (c.hits, total) } else c

  -- `NewLRUCache`
  unfoldable pub new_lru_cache : ℤ → ℤ → LruCache V
  new_lru_cache max_size default_ttl = record {
    store = [];
    entries = [];
    max_size = max_size;
    default_ttl = default_ttl;
    head = none;
    tail = none;
    hits = 0;
    misses = 0;
    size = 0;
    stats_evictions = 0;
    evictions = 0;
    hit_rate = none;
  }

  -- The end of `Get`, for a hit.
  unfoldable pub touch : ℕ → ℕ → LruCache V → LruCache V
  unfolding move_to_front update_hit_rate count_up write_node
  touch a accessed c =
      let touched = write_node a (λ n. record n { access_time = accessed }) (move_to_front a c) in
      update_hit_rate (record touched { hits = count_up touched.hits })

  -- `Get`, with the readings of the clock for the expiry and for the access time.
  unfoldable pub get : String → ℕ → ℕ → LruCache V → Option V × LruCache V
  unfolding entry remove_node touch count_up has_expired node_at
  get key now accessed c = elim (entry key c.entries) [
    | none ↦ (none, record c { misses = count_up c.misses })
    | some a ↦
        let removed = remove_node a c in
        let hit = touch a accessed c in
        if has_expired (node_at a c).expires_at now
        then (none, record removed { misses = count_up removed.misses })
        else (some (node_at a hit).value, hit)
  ]

  -- `Set`: an eviction if the map is full.
  unfoldable pub make_room : LruCache V → LruCache V
  unfolding evict_lru is_full count_up
  make_room c =
      let evicted = evict_lru c in
      if is_full (length c.entries) c.max_size
      then record evicted {
        evictions = count_up evicted.evictions;
        stats_evictions = count_up evicted.evictions;
      }
      else c

  -- `Set`: a new node, at the address behind all others.
  unfoldable pub allocate : CacheNode V → LruCache V → LruCache V
  allocate n c = record c { store = c.store ++ (n ∷ []) }

  -- `Set` for a key that the map does not have, after the eviction.
  unfoldable pub insert_node : CacheNode V → LruCache V → LruCache V
  unfolding allocate add_to_front delete
  insert_node n c =
      let a = length c.store in
      let added = add_to_front a (allocate n c) in
      let entries = (n.key, a) ∷ delete n.key added.entries in
      record added { entries = entries; size = length entries }

  -- `Set`, with the readings of the clock for the expiry and for the access time.
  unfoldable pub set : String → V → ℤ → ℕ → ℕ → LruCache V → LruCache V
  unfolding entry move_to_front make_room insert_node expiry write_node is_zero
  set key value ttl now accessed c =
      let expires = expiry (if is_zero ttl then c.default_ttl else ttl) now in
      elim (entry key c.entries) [
        | some b ↦ move_to_front b (
            write_node b
              (λ n. record n { value = value; expires_at = expires; access_time = accessed }) c)
        | none ↦
            insert_node
              (record {
                key = key;
                value = value;
                expires_at = expires;
                access_time = accessed;
                prev = none;
                next = none;
              })
              (make_room c)
      ]

  -- `Invalidate`
  unfoldable pub invalidate : String → LruCache V → LruCache V
  unfolding entry remove_node
  invalidate key c = elim (entry key c.entries) [
    | none ↦ c
    | some a ↦ let removed = remove_node a c in record removed { size = length removed.entries }
  ]

  -- `Clear`
  unfoldable pub clear : LruCache V → LruCache V
  unfolding update_hit_rate
  clear c = update_hit_rate (record c {
    entries = [];
    head = none;
    tail = none;
    size = 0;
    hits = 0;
    misses = 0;
    stats_evictions = 0;
    evictions = 0;
  })

  -- `GetStats`, which also computes the hit rate of the cache again.
  unfoldable pub get_stats : LruCache V → Stats × LruCache V
  unfolding update_hit_rate
  get_stats c =
      let updated = update_hit_rate c in
      (
        record {
          hits = c.hits;
          misses = c.misses;
          size = length c.entries;
          max_size = c.max_size;
          evictions = c.evictions;
          hit_rate = updated.hit_rate;
        },
        updated,
      )
