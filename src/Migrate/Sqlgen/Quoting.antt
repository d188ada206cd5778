-- ===== src/Migrate/Sqlgen/Quoting.antt =====
-- The literals that `quoteDefaultValue` makes (migrate/sqlgen/postgres.go), read as SQL reads them.
use Prim.Native.Char.{Char, code}
use Prim.Native.String.{String, [] as no_text, ◌∷◌ as ◌∷ᵀ◌, ◌++◌, char_at}
use text.Mathlib.TextEquality.{Char-path}
use prisma_go.Base.{
  ◌≡◌, refl, sym, ap, if◌then◌else◌, str_nil-append, ==_iff, Bool, true, false, ◌==◌, Option, none,
  some, arith, inl, inr, Bool-cases, Unicode, replace_char, cons-append,
}
use prisma_go.Migrate.Sqlgen.{is_expression, is_quoted, quote_literal, quote_default_value}

-- A character in front of what is read.
put_first : Char → Option String → Option String
put_first c none = none
put_first c (some s) = some (c ∷ᵀ s)

-- The rest of a literal, behind a quote or not: two quotes are one in the value, and a quote alone
-- ends it, behind which there is to be nothing.
unfoldable pub read_literal_rest : Char → Bool → String → Option String
unfolding put_first
read_literal_rest q false no_text = none
read_literal_rest q true no_text = some no_text
read_literal_rest q false (c ∷ᵀ s) =
    let ended = read_literal_rest q true s in
    let next = read_literal_rest q false s in if code c == code q then ended else put_first c next
read_literal_rest q true (c ∷ᵀ s) =
    let next = read_literal_rest q false s in if code c == code q then put_first q next else none

-- A literal in single quotes.
unfoldable pub read_literal : String → Option String
unfolding read_literal_rest
read_literal no_text = none
read_literal (c ∷ᵀ s) =
    let rest = read_literal_rest (char_at "'" 0) false s in
    if code c == code (char_at "'" 0) then rest else none

read-two_quotes :
    (q : Char) (s : String)
    → read_literal_rest q false (q ∷ᵀ (q ∷ᵀ s)) ≡ put_first q (read_literal_rest q false s)
unfolding read_literal_rest
read-two_quotes q s =
    let same : code q == code q ≡ true = ground arith in simp (same, read_literal_rest) refl

read-other :
    (q c : Char) (s : String)
    → code c == code q ≡ false
    → read_literal_rest q false (c ∷ᵀ s) ≡ put_first c (read_literal_rest q false s)
unfolding read_literal_rest
read-other q c s e = simp (e, read_literal_rest) refl

two_in_front : (q : Char) (r t : String) → ((q ∷ᵀ (q ∷ᵀ no_text)) ++ r) ++ t ≡ q ∷ᵀ (q ∷ᵀ (r ++ t))
two_in_front q r t = simp (cons-append, str_nil-append) refl

-- The doubled text and the quote behind it are read as the text.
read-replace_char :
    (q : Char) (s : String)
    → read_literal_rest q false (replace_char q (q ∷ᵀ (q ∷ᵀ no_text)) s ++ (q ∷ᵀ no_text)) ≡ some s
unfolding replace_char put_first
read-replace_char q no_text =
    let same : code q == code q ≡ true = ground arith in
    rw str_nil-append (unfold read_literal_rest in rw same refl)
read-replace_char q (c ∷ᵀ s) =
    let tail = q ∷ᵀ no_text in
    let doubled = replace_char q (q ∷ᵀ (q ∷ᵀ no_text)) s in
    elim (Bool-cases (code c == code q)) [
      | inl e ↦
          rw
            (
              e,
              two_in_front q doubled tail,
              read-two_quotes q (doubled ++ tail),
              read-replace_char q s,
            )
            (ap (λ x. some (x ∷ᵀ s)) (sym (Char-path c q ((==_iff (code c) (code q)).0 e))))
      | inr e ↦
          rw
            (
              e,
              cons-append c doubled tail,
              read-other q c (doubled ++ tail) e,
              read-replace_char q s,
            )
            refl
    ]

-- A default value that is quoted at all is read as the value: for a value that is neither an
-- expression nor taken to be a literal already, the literal that `quoteDefaultValue` writes, read
-- with two quotes for one, is the value again, with whatever quotes there are in it.
pub read-quote_default_value :
    (u : Unicode) (value col_type : String)
    → is_expression u value col_type ≡ false
    → is_quoted value ≡ false
    → read_literal (quote_default_value u value col_type) ≡ some value
unfolding quote_default_value quote_literal read_literal
read-quote_default_value u value col_type plain bare =
    rw (plain, bare, cons-append, str_nil-append) (read-replace_char (char_at "'" 0) value)
