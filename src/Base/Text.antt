-- ===== src/Base/Text.antt =====
-- The functions of Go's packages `strings` and `strconv` that the program calls, over native
-- texts. A text is walked by character; every separator and pattern that the program uses is ASCII.
pub mod Labels
pub mod Laws
pub mod Spaces
use Prim.Native.Nat.{ℕ, compare, Ordering}
use Prim.Native.Char.{Char, code}
use Prim.Native.String
use Prim.Native.String.{String, [], ◌∷◌}
use mathlib.Core.Bool.{Bool, true, false, ◌||◌, ◌&&◌}
use mathlib.Core.Option.{Option, none, some}
use mathlib.Core.List.{List, [], ◌∷◌}
use text.Mathlib.Text.{◌==◌}
use gameserver_ingress_contr.Base.Control.{if◌then◌else◌, leb, is_some}

-- Two characters with one code point.
abbrev pub same_code : ℕ → ℕ → Bool
same_code a b = elim (compare a b) [ Ordering.eq ↦ true | _ ↦ false ]

-- `len(s) == 0`
abbrev pub is_empty : String → Bool
is_empty [] = true
is_empty (_ ∷ _) = false

-- What follows the prefix `p` in `s`, if `s` begins with it.
unfoldable pub strip_prefix : String → String → Option String
strip_prefix s [] = some s
strip_prefix [] (_ ∷ _) = none
strip_prefix (d ∷ s) (c ∷ p) = if same_code (code d) (code c) then strip_prefix s p else none

-- `strings.HasPrefix`
abbrev pub has_prefix : String → String → Bool
has_prefix s p = is_some (strip_prefix s p)

-- `strings.TrimPrefix`: `s` itself where it lacks the prefix.
abbrev pub trim_prefix : String → String → String
trim_prefix s p = elim (strip_prefix s p) [ none ↦ s | some rest ↦ rest ]

-- `strings.Contains`
unfoldable pub contains : String → String → Bool
unfolding strip_prefix
contains [] p = has_prefix [] p
contains (c ∷ s) p = has_prefix (c ∷ s) p || contains s p

abbrev pub on_head : (String → String) → List String → List String
on_head f [] = []
on_head f (x ∷ xs) = f x ∷ xs

-- `strings.Split(s, sep)` at a separator of one character, given by its code: never an empty list.
unfoldable pub split : ℕ → String → List String
split sep [] = "" ∷ []
split sep (c ∷ s) =
    let rest = split sep s in
    if same_code (code c) sep then "" ∷ rest else on_head (λ part. c ∷ part) rest

-- `unicode.IsSpace`, on code points.
unfoldable pub is_space : ℕ → Bool
is_space c =
    (leb 9 c && leb c 13)
    || same_code c 0x20
    || same_code c 0x85
    || same_code c 0xa0
    || same_code c 0x1680
    || (leb 0x2000 c && leb c 0x200a)
    || same_code c 0x2028
    || same_code c 0x2029
    || same_code c 0x202f
    || same_code c 0x205f
    || same_code c 0x3000

unfoldable pub trim_left : String → String
unfolding is_space
trim_left [] = ""
trim_left (c ∷ s) = let rest = trim_left s in if is_space (code c) then rest else c ∷ s

-- A character is dropped if it is a space and nothing but spaces follows it.
abbrev keep_unless_blank : Char → String → String
keep_unless_blank c [] = if is_space (code c) then "" else c ∷ []
keep_unless_blank c (d ∷ s) = c ∷ d ∷ s

unfoldable pub trim_right : String → String
unfolding is_space
trim_right [] = ""
trim_right (c ∷ s) = keep_unless_blank c (trim_right s)

-- `strings.TrimSpace`
unfoldable pub trim_space : String → String
unfolding trim_left trim_right
trim_space s = trim_right (trim_left s)

-- `strings.ReplaceAll(s, old, new)` for one character by another.
unfoldable pub replace_all : ℕ → Char → String → String
replace_all old new [] = ""
replace_all old new (c ∷ s) = (if same_code (code c) old then new else c) ∷ replace_all old new s

-- `strconv.ParseBool`; `none` is its syntax error.
unfoldable pub parse_bool : String → Option Bool
parse_bool s =
    if s == "1" || s == "t" || s == "T" || s == "true" || s == "TRUE" || s == "True"
    then some true
    else if s == "0" || s == "f" || s == "F" || s == "false" || s == "FALSE" || s == "False"
    then some false
    else none
