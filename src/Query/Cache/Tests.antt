-- ===== src/Query/Cache/Tests.antt =====
-- Runs of the cache (query/cache/cache.go), and the theorems on them.
use prisma_go.Base.{
  String, str_eq, ap, sym, subst, ◌∙◌, arith, ◌≢◌, ◌↔◌, true, inl, inr, In, ℕ, ◌≡◌, refl, List, [],
  ◌∷◌, none, some, length, for_each, pos,
}
use prisma_go.Query.Cache.{entry, LruCache, get, set, new_lru_cache, node_at, expiry}
use prisma_go.Query.Cache.Entries.{IsKeyed, get-forgets}
use prisma_go.Query.Cache.Inserting.{set-get, set-forgets}
use prisma_go.Query.Cache.Patterns.{
  IsRange, entry-In, split_colons, invalidate_pattern, matches_pattern, invalidate_pattern-get,
}
use prisma_go.Query.Cache.Splitting.{matches_pattern-exact}
use prisma_go.Query.Cache.Reachable.{Call, get_call, set_call, call, calls-IsKeyed}

-- a and then b are set: b is at the head.
abbrev two_set : List (Call ℕ)
two_set = set_call "a" 1 (pos 0) 0 0 ∷ set_call "b" 2 (pos 0) 0 0 ∷ []

abbrev two_entries : LruCache ℕ
two_entries = for_each (call 0) two_set (new_lru_cache 0 (pos 2) (pos 0))

calls-IsKeyed_example : IsKeyed 0 two_entries
calls-IsKeyed_example = calls-IsKeyed 0 two_set (pos 2) (pos 0)

get-forgets_example :
    ((get 0 "a" 5 5 two_entries).0 ≡ some 1)
    × ((get 0 "a" 6 6 (get 0 "a" 5 5 two_entries).1).0 ≡ none)
unfolding call new_lru_cache node_at
get-forgets_example =
    get-forgets 0 "a" 5 5 6 6 0 two_entries (calls-IsKeyed 0 two_set (pos 2) (pos 0)) refl refl refl

set-get_example : (get 0 "c" 8 8 (set 0 "c" 3 (pos 9) 7 7 two_entries)).0 ≡ some 3
unfolding call new_lru_cache expiry
set-get_example = set-get 0 "c" 3 (pos 9) 7 7 8 8 two_entries refl refl

set-forgets_example : (get 0 "a" 8 8 (set 0 "a" 3 (pos 9) 7 7 two_entries)).0 ≡ none
unfolding call new_lru_cache
set-forgets_example =
    set-forgets 0 "a" 3 (pos 9) 7 7 8 8 0 two_entries (calls-IsKeyed 0 two_set (pos 2) (pos 0)) refl
      refl

abbrev two_keys : List (Call ℕ)
two_keys = set_call "user:1" 1 (pos 0) 0 0 ∷ set_call "post:1" 2 (pos 0) 0 0 ∷ []

abbrev users_and_posts : LruCache ℕ
users_and_posts = for_each (call 0) two_keys (new_lru_cache 0 (pos 5) (pos 0))

abbrev both_entries : List (String × ℕ)
both_entries = ("post:1", 1) ∷ ("user:1", 0) ∷ []

both_entries-IsRange : IsRange both_entries users_and_posts.entries
unfolding call new_lru_cache entry
both_entries-IsRange = record { present = present; complete = λ k a e. entry-In k a both_entries e }
  where
    present :
        (k : String) (a : ℕ) → In (k, a) both_entries → entry k users_and_posts.entries ≡ some a
    present k a (inl e) = subst (λ t. entry t.0 users_and_posts.entries ≡ some t.1) (sym e) refl
    present k a (inr (inl e)) =
        subst (λ t. entry t.0 users_and_posts.entries ≡ some t.1) (sym e) refl
    present k a (inr (inr m)) = absurd m

users_and_posts-IsKeyed : IsKeyed 0 users_and_posts
users_and_posts-IsKeyed = calls-IsKeyed 0 two_keys (pos 5) (pos 0)

post-IsPlain : (p : String) → In p (split_colons "post:2") → p ≢ "*"
unfolding split_colons
post-IsPlain p (inl e) = λ star. ground (arith, ap (λ t. str_eq t "*") (sym e ∙ star))
post-IsPlain p (inr (inl e)) = λ star. ground (arith, ap (λ t. str_eq t "*") (sym e ∙ star))
post-IsPlain p (inr (inr m)) = absurd m

invalidate_pattern-get_example :
    ((get 0 "user:1" 5 5 (invalidate_pattern 0 "user:*" both_entries users_and_posts)).0 ≡ none)
    × ((get 0 "post:1" 5 5 (invalidate_pattern 0 "user:*" both_entries users_and_posts)).0 ≡ some 2)
unfolding matches_pattern call new_lru_cache
invalidate_pattern-get_example = (
  invalidate_pattern-get 0 "user:*" both_entries "user:1" 5 5 users_and_posts
      users_and_posts-IsKeyed both_entries-IsRange,
  invalidate_pattern-get 0 "user:*" both_entries "post:1" 5 5 users_and_posts
      users_and_posts-IsKeyed both_entries-IsRange,
)

matches_pattern-exact_example :
    (matches_pattern "post:1" "post:2" ≡ true) ↔ (◌≡◌ {A = String} "post:1" "post:2")
matches_pattern-exact_example = matches_pattern-exact "post:1" "post:2" post-IsPlain

-- A cache of two grows to three: a moved node stays in the list, and its eviction frees no entry.
grows_run :
    length
      (for_each
        (call 0)
        (get_call "a" 1 1
          ∷ set_call "c" 3 (pos 0) 0 0
          ∷ set_call "d" 4 (pos 0) 0 0
          ∷ set_call "e" 5 (pos 0) 0 0
          ∷ [])
        two_entries).entries
    ≡ 3
unfolding call new_lru_cache
grows_run = refl
