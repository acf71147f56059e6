-- ===== src/Common/Text.antt =====
-- Texts as lists of code points, with the methods of `str` that the process scans call.
use Prim.Native.Nat.{ℕ, zero, suc, ◌+◌, ◌-◌, ◌*◌}
use mathlib.Core.Bool.{Bool, true, false, not, ◌&&◌, ◌||◌}
use mathlib.Core.List.{List, [], ◌∷◌, map, reverse}
use mathlib.Core.Option.{Option, none, some}
use dracon_system_disk_proce.Common.Tests.{leb, nat_beq, if◌then◌else◌, is_none}
use dracon_system_disk_proce.Common.Signed.{ℤ, pos, negsuc}

abbrev pub Text : Type 0
Text = List ℕ

-- `str::eq`.
unfoldable pub text_beq : Text → Text → Bool
text_beq [] [] = true
text_beq (c ∷ s) (d ∷ t) = nat_beq c d && text_beq s t
text_beq _ _ = false

unfoldable pub is_empty : Text → Bool
is_empty [] = true
is_empty (c ∷ s) = false

-- `strip_prefix`: what follows the prefix.
unfoldable pub strip_prefix : Text → Text → Option Text
strip_prefix [] s = some s
strip_prefix (c ∷ p) [] = none
strip_prefix (c ∷ p) (d ∷ s) = if nat_beq c d then strip_prefix p s else none

unfoldable pub starts_with : Text → Text → Bool
unfolding strip_prefix
starts_with p s = not (is_none (strip_prefix p s))

-- `find` and the slice after the match: what follows the first occurrence.
unfoldable pub find_after : Text → Text → Option Text
find_after p [] = strip_prefix p []
find_after p (c ∷ s) =
    let later = find_after p s in
    elim (strip_prefix p (c ∷ s)) [ some rest ↦ some rest | none ↦ later ]

unfoldable pub contains : Text → Text → Bool
unfolding find_after
contains s p = not (is_none (find_after p s))

-- The longest prefix of characters that pass, and the rest.
unfoldable pub take_while : (ℕ → Bool) → Text → Text
take_while p [] = []
take_while p (c ∷ s) = if p c then c ∷ take_while p s else []

unfoldable pub drop_while : (ℕ → Bool) → Text → Text
drop_while p [] = []
drop_while p (c ∷ s) = if p c then drop_while p s else c ∷ s

-- `char::is_whitespace`: the White_Space property of Unicode.
unfoldable pub is_whitespace : ℕ → Bool
is_whitespace c =
    (leb 9 c && leb c 13)
    || nat_beq c 32
    || nat_beq c 133
    || nat_beq c 160
    || nat_beq c 5760
    || (leb 8192 c && leb c 8202)
    || nat_beq c 8232
    || nat_beq c 8233
    || nat_beq c 8239
    || nat_beq c 8287
    || nat_beq c 12288

unfoldable pub trim : Text → Text
trim s = reverse (drop_while is_whitespace (reverse (drop_while is_whitespace s)))

unfoldable pub to_ascii_lowercase : Text → Text
to_ascii_lowercase = map (λ c. if leb 65 c && leb c 90 then c + 32 else c)

-- `replace('\0', " ")`.
unfoldable pub replace_nul : Text → Text
replace_nul = map (λ c. if nat_beq c 0 then 32 else c)

push_word : Text → List Text → List Text
push_word [] words = words
push_word (c ∷ w) words = (c ∷ w) ∷ words

-- The word that the text starts in, and the words after it.
split_step : Text → Text × List Text
unfolding push_word
split_step [] = ([], [])
split_step (c ∷ s) =
    let (w, words) = split_step s in
    if is_whitespace c then ([], push_word w words) else (c ∷ w, words)

unfoldable pub split_whitespace : Text → List Text
unfolding split_step push_word is_whitespace
split_whitespace s = push_word (split_step s).0 (split_step s).1

line_char : ℕ → List Text → List Text
line_char c [] = (c ∷ []) ∷ []
line_char c (l ∷ ls) = (c ∷ l) ∷ ls

-- `str::lines`: a last line break ends the last line, and a carriage return before one is dropped.
unfoldable pub lines : Text → List Text
unfolding line_char starts_with strip_prefix
lines [] = []
lines (c ∷ s) =
    let rest = lines s in
    if nat_beq c 10
    then [] ∷ rest
    else if nat_beq c 13 && starts_with (10 ∷ []) s
    then rest
    else line_char c rest

-- `split` at a character.
unfoldable pub split_on : ℕ → Text → List Text
unfolding line_char
split_on c [] = [] ∷ []
split_on c (d ∷ s) = let rest = split_on c s in if nat_beq d c then [] ∷ rest else line_char d rest

-- What stands before the first and after the last occurrence of a character.
unfoldable pub split_first : ℕ → Text → Text
unfolding take_while
split_first c = take_while (λ d. not (nat_beq d c))

unfoldable pub rsplit_once : ℕ → Text → Option Text
rsplit_once c [] = none
rsplit_once c (d ∷ s) = elim (rsplit_once c s) [
  | some t ↦ some t
  | none ↦ if nat_beq d c then some s else none
]

unfoldable pub is_digit : ℕ → Bool
is_digit c = leb 48 c && leb c 57

digits_value : ℕ → Text → Option ℕ
digits_value acc [] = some acc
digits_value acc (c ∷ s) =
    let rest = digits_value (acc * 10 + (c - 48)) s in if is_digit c then rest else none

bounded : ℕ → Option ℕ → Option ℕ
bounded limit none = none
bounded limit (some n) = if leb n limit then some n else none

number : Text → Option ℕ
unfolding digits_value is_digit
number [] = none
number (c ∷ s) = digits_value 0 (c ∷ s)

strip_plus : Text → Text
strip_plus [] = []
strip_plus (c ∷ s) = if nat_beq c 43 then s else c ∷ s

-- `parse` of an unsigned integer: an optional plus sign and decimal digits, no larger than the type's
-- largest value.
unfoldable pub parse_unsigned : ℕ → Text → Option ℕ
unfolding bounded number strip_plus
parse_unsigned limit s = bounded limit (number (strip_plus s))

negate : ℕ → ℤ
negate zero = pos 0
negate (suc n) = negsuc n

as_positive : Option ℕ → Option ℤ
as_positive none = none
as_positive (some n) = some (pos n)

as_negative : Option ℕ → Option ℤ
unfolding negate
as_negative none = none
as_negative (some n) = some (negate n)

-- `parse::<i32>`.
unfoldable pub parse_i32 : Text → Option ℤ
unfolding as_positive as_negative bounded number parse_unsigned
parse_i32 [] = none
parse_i32 (c ∷ s) =
    if nat_beq c 45
    then as_negative (bounded 2147483648 (number s))
    else as_positive (parse_unsigned 2147483647 (c ∷ s))
