-- ===== src/Query/Cache/Splitting.antt =====
-- The patterns of the cache (query/cache/cache.go): the parts of a text, and patterns without a
-- wildcard.
use Prim.Native.Char.{Char, code}
use Prim.Native.String.{String, [] as no_text, ◌∷◌ as ◌∷ᵀ◌, char_at}
use text.Mathlib.TextEquality.{Char-path}
use prisma_go.Base.{
  ◌<>◌, str_nil-append, cons-append, ◌≡◌, ◌≢◌, ◌↔◌, refl, sym, ap, ap₂, subst, ==_iff, ◌∙◌, true,
  false, str_eq, eq_iff, List, [], ◌∷◌, length, ◌==◌, arith, inl, inr, Bool-cases, In, join,
  add_first, split_char,
}
use prisma_go.Query.Cache.Patterns.{split_colons, parts_match, matches_pattern}

-- There is a first part.
split_char-cons :
    (c : Char) (s : String) → (t : String) × (ts : List String) × (split_char c s ≡ t ∷ ts)
unfolding split_char add_first
split_char-cons c no_text = (no_text, [], refl)
split_char-cons c (d ∷ᵀ s) =
    let (t, ts, e) = split_char-cons c s in
    elim (Bool-cases (code c == code d)) [
      | inl h ↦ (no_text, split_char c s, simp h refl)
      | inr h ↦ (d ∷ᵀ t, ts, simp (h, e) refl)
    ]

join-add_first :
    (sep : String) (d : Char) (t : String) (ts : List String)
    → join sep (add_first d (t ∷ ts)) ≡ d ∷ᵀ join sep (t ∷ ts)
unfolding join add_first
join-add_first sep d t [] = refl
join-add_first sep d t (u ∷ ts) = cons-append d t (sep <> join sep (u ∷ ts))

-- The parts, joined again, are the text.
pub join-split_char : (c : Char) (s : String) → join (c ∷ᵀ no_text) (split_char c s) ≡ s
unfolding split_char join
join-split_char c no_text = refl
join-split_char c (d ∷ᵀ s) =
    let (t, ts, e) = split_char-cons c s in
    let left : join (c ∷ᵀ no_text) (t ∷ ts) ≡ s = rw e at (join-split_char c s) in
    elim (Bool-cases (code c == code d)) [
      | inl h ↦
          simp (h, e)
            (str_nil-append _
              ∙ cons-append c no_text _
              ∙ ap (◌∷ᵀ◌ c) (str_nil-append _ ∙ left)
              ∙ ap (λ x. x ∷ᵀ s) (Char-path c d ((==_iff (code c) (code d)).0 h)))
      | inr h ↦ simp (h, e) (join-add_first (c ∷ᵀ no_text) d t ts ∙ ap (◌∷ᵀ◌ d) left)
    ]

parts_match-exact :
    (parts keys : List String)
    → length parts ≡ length keys
    → ((p : String) → In p parts → p ≢ "*")
    → parts_match parts keys ≡ true
    → keys ≡ parts
unfolding parts_match
parts_match-exact [] [] n plain m = refl
parts_match-exact [] (k ∷ keys) n plain m = absurd (omega (arith, n))
parts_match-exact (p ∷ parts) [] n plain m = absurd (omega (arith, n))
parts_match-exact (p ∷ parts) (k ∷ keys) n plain m =
    let here : str_eq p "*" ≡ false = ground (arith, plain p (inl refl), eq_iff p "*") in
    let same : k ≡ p = ground (arith, here, m, eq_iff p k) in
    let rest : parts_match parts keys ≡ true = ground (arith, here, m) in
    ap₂ (λ (x : String) (xs : List String). x ∷ xs) same
      (parts_match-exact parts keys (omega (arith, n)) (λ q h. plain q (inr h)) rest)

parts_match_refl : (parts : List String) → parts_match parts parts ≡ true
unfolding parts_match
parts_match_refl [] = refl
parts_match_refl (p ∷ parts) = ground (arith, parts_match_refl parts, eq_iff p p)

split_colons-injective : (s t : String) → split_colons s ≡ split_colons t → s ≡ t
unfolding split_colons
split_colons-injective s t e =
    sym (join-split_char (char_at ":" 0) s) ∙ ap (join ":") e ∙ join-split_char (char_at ":" 0) t

-- A pattern of which no part is a wildcard matches just the key that it is.
pub matches_pattern-exact :
    (key pattern : String)
    → ((p : String) → In p (split_colons pattern) → p ≢ "*")
    → (matches_pattern key pattern ≡ true) ↔ (key ≡ pattern)
unfolding matches_pattern
matches_pattern-exact key pattern plain = (there, back)
  where
    parts : List String
    parts = split_colons pattern

    keys : List String
    keys = split_colons key

    wild_part : In "*" (split_colons "*")
    wild_part = unfold split_colons in inl refl

    named : str_eq pattern "*" ≡ false
    named = elim (Bool-cases (str_eq pattern "*")) [
      | inr e ↦ e
      | inl e ↦
          let star = (eq_iff pattern "*").0 e in
          absurd (plain "*" (subst (λ t. In "*" (split_colons t)) (sym star) wild_part) refl)
    ]

    there : matches_pattern key pattern ≡ true → key ≡ pattern
    there m =
        let one_length : length parts ≡ length keys = ground (arith, named, m) in
        let all : parts_match parts keys ≡ true = ground (arith, named, m) in
        split_colons-injective key pattern (parts_match-exact parts keys one_length plain all)

    back : key ≡ pattern → matches_pattern key pattern ≡ true
    back e =
        rw (e, matches_pattern, named) (ground (arith, parts_match_refl (split_colons pattern)))
