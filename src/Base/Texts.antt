-- ===== src/Base/Texts.antt =====
-- The functions of Go's package strings that the program uses, over the Unicode tables of its
-- package unicode, which are a parameter.
use Prim.Native.Char.{Char, code}
use Prim.Native.String.{String, [], ◌∷◌, ◌++◌, len, compare, find, char_at}
use mathlib.Core.Bool.{Bool, true, false, not, ◌&&◌, ◌||◌}
use mathlib.Core.List.{List, [] as nil, ◌∷◌ as ◌∷ᴸ◌}
use text.Mathlib.Text
use prisma_go.Base.Tests.{str_eq, leb, ◌==◌, if◌then◌else◌}

pub record Unicode : Type 0 where
  pub to_upper : Char → Char
  pub to_lower : Char → Char
  pub to_title : Char → Char
  pub is_space : Char → Bool
  pub is_letter : Char → Bool
  pub is_digit : Char → Bool

-- `strings.Map`
unfoldable pub map_text : (Char → Char) → String → String
map_text f [] = []
map_text f (c ∷ s) = f c ∷ map_text f s

-- `strings.ToUpper`, `strings.ToLower`
unfoldable pub upper_text : Unicode → String → String
unfolding map_text
upper_text u s = map_text u.to_upper s

unfoldable pub lower_text : Unicode → String → String
unfolding map_text
lower_text u s = map_text u.to_lower s

-- `strings.Contains`, `strings.HasPrefix`
unfoldable pub contains : String → String → Bool
contains s t = leb (find s t) (len s)

unfoldable pub has_prefix : String → String → Bool
has_prefix s t = Text.starts_with s t

-- `s` without the characters in front, behind, and on both sides.
unfoldable pub trim_left : (Char → Bool) → String → String
trim_left p [] = []
trim_left p (c ∷ s) = let rest = trim_left p s in if p c then rest else c ∷ s

unfoldable pub trim_right : (Char → Bool) → String → String
trim_right p [] = []
trim_right p (c ∷ s) = let rest = trim_right p s in if p c && str_eq rest [] then [] else c ∷ rest

unfoldable pub trim_func : (Char → Bool) → String → String
unfolding trim_left trim_right
trim_func p s = trim_right p (trim_left p s)

unfoldable pub has_char : Char → String → Bool
has_char c [] = false
has_char c (d ∷ s) = code c == code d || has_char c s

-- `strings.TrimSpace`, `strings.Trim`
unfoldable pub trim_space : Unicode → String → String
unfolding trim_func
trim_space u s = trim_func u.is_space s

unfoldable pub trim : String → String → String
unfolding trim_func has_char
trim s cutset = trim_func (λ c. has_char c cutset) s

-- `isSeparator` of package strings: what ends a word.
unfoldable pub is_separator : Unicode → Char → Bool
is_separator u c =
    let n = code c in
    if leb n 127
    then not
        ((leb 48 n && leb n 57) || (leb 97 n && leb n 122) || (leb 65 n && leb n 90) || n == 95)
    else if u.is_letter c || u.is_digit c
    then false
    else u.is_space c

-- `strings.Title`: the letters that begin words, in title case. `prev` is the character before.
unfoldable pub title_after : Unicode → Char → String → String
unfolding is_separator
title_after u prev [] = []
title_after u prev (c ∷ s) = (if is_separator u prev then u.to_title c else c) ∷ title_after u c s

unfoldable pub title : Unicode → String → String
unfolding title_after
title u s = title_after u (char_at " " 0) s

-- `strings.Join`
unfoldable pub join : String → List String → String
join sep nil = []
join sep (s ∷ᴸ nil) = s
join sep (s ∷ᴸ (t ∷ᴸ ts)) = s ++ (sep ++ join sep (t ∷ᴸ ts))

-- `<` on strings
unfoldable pub text_lt : String → String → Bool
text_lt s t = Text.is_lt (compare s t)

-- `strings.Split` at one character. The first piece grows by what stands before it.
unfoldable pub add_first : Char → List String → List String
add_first d nil = (d ∷ []) ∷ᴸ nil
add_first d (t ∷ᴸ ts) = (d ∷ t) ∷ᴸ ts

unfoldable pub split_char : Char → String → List String
unfolding add_first
split_char c [] = [] ∷ᴸ nil
split_char c (d ∷ s) =
    let rest = split_char c s in if code c == code d then [] ∷ᴸ rest else add_first d rest

-- `strings.HasSuffix`
unfoldable pub has_suffix : String → String → Bool
has_suffix [] t = str_eq [] t
has_suffix (c ∷ s) t = let rest = has_suffix s t in if str_eq (c ∷ s) t then true else rest

-- `strings.ReplaceAll` of one character.
unfoldable pub replace_char : Char → String → String → String
replace_char old new [] = []
replace_char old new (c ∷ s) =
    let rest = replace_char old new s in if code c == code old then new ++ rest else c ∷ rest
