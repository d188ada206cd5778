-- ===== src/Psl/Interner/Tests.antt =====
-- Runs of the interner (psl/database/interner.go), and the theorems on them.
use prisma_go.Base.{ℕ, ◌≡◌, refl, String, List, [], ◌∷◌, some, In, arith}
use prisma_go.Psl.Interner.{new_string_interner, get, lookup, intern, intern_all}
use prisma_go.Psl.Interner.Ids.{
  IsValid, new_string_interner-IsValid, intern-IsValid, lookup_injective, intern_all_lem,
}

-- User, Post and User again.
abbrev names : List String
names = "User" ∷ "Post" ∷ "User" ∷ []

names_run :
    intern_all names new_string_interner
    ≡ record { strings = "User" ∷ "Post" ∷ []; index = ("Post", 1) ∷ ("User", 0) ∷ [] }
unfolding intern_all new_string_interner
names_run = refl

intern-IsValid_example : IsValid (intern "User" new_string_interner).1
intern-IsValid_example =
    intern-IsValid "User" new_string_interner new_string_interner-IsValid
      (unfold new_string_interner in omega arith)

lookup_injective_example : ◌≡◌ {A = String} "Post" "Post"
unfolding intern_all new_string_interner lookup
lookup_injective_example =
    lookup_injective "Post" "Post" 1 (intern_all names new_string_interner)
      (intern_all_lem names (omega arith)).0 refl refl

intern_all_lem_example :
    let si = intern_all names new_string_interner in
    IsValid si × ((s : String) → In s names → (id : ℕ) × (lookup s si ≡ some id) × (get id si ≡ s))
intern_all_lem_example = intern_all_lem names (omega arith)
