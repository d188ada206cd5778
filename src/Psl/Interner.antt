-- ===== src/Psl/Interner.antt =====
-- The string interner (psl/database/interner.go). Each operation holds the lock, so it is one step
-- on the state.
pub mod Ids
mod Tests
use prisma_go.Base.{
  ℕ, suc, ◌+◌, ◌%◌, ◌^◌, ◌≡◌, if◌then◌else◌, String, str_eq, List, [], ◌∷◌, ◌++◌, Option, none,
  some, length, get_or, ltb,
}

pub record StringInterner : Type 0 where
  pub strings : List String
  -- The map, the last entry first.
  pub index : List (String × ℕ)

-- `StringId`, a uint32.
unfoldable pub string_id : ℕ → ℕ
string_id n = n % 2 ^ 32

-- `NewStringInterner`
unfoldable pub new_string_interner : StringInterner
new_string_interner = record { strings = []; index = [] }

-- `si.index[s]`
unfoldable pub entry : String → List (String × ℕ) → Option ℕ
entry s [] = none
entry s ((t, id) ∷ index) = if str_eq s t then some id else entry s index

-- `Get`
unfoldable pub get : ℕ → StringInterner → String
get id si = if ltb id (length si.strings) then get_or si.strings id "" else ""

-- `Lookup`
unfoldable pub lookup : String → StringInterner → Option ℕ
unfolding entry
lookup s si = entry s si.index

-- `Intern`
unfoldable pub intern : String → StringInterner → ℕ × StringInterner
unfolding entry string_id
intern s si = elim (entry s si.index) [
  | some id ↦ (id, si)
  | none ↦
      let id = string_id (length si.strings) in
      (id, record { strings = si.strings ++ (s ∷ []); index = (s, id) ∷ si.index })
]

-- Interning one string after the other.
unfoldable pub intern_all : List String → StringInterner → StringInterner
unfolding intern
intern_all [] si = si
intern_all (s ∷ rest) si = intern_all rest (intern s si).1
