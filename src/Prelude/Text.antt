-- ===== src/Prelude/Text.antt =====
-- What the program uses of Go's `strings` package, on texts as sequences of characters.
pub mod Digits
use Prim.Native.Char.{Char, code}
use Prim.Native.String.{String, []}
use Prim.Native.String
use Prim.Native.Nat.{ℕ, zero, suc, ◌+◌, ◌-◌, ◌*◌, ◌/◌, ◌%◌, ◌^◌}
use mathlib.Core.Bool.{Bool, true, false, ◌&&◌, ◌||◌}
use mathlib.Core.List.{List, [] as nil, ◌∷◌}
use mathlib.Core.Option.{Option, none, some}
use yokai.Prelude.Int.{ℤ, pos, negsuc}
use yokai.Prelude.Lists.{get_or}
use text.Mathlib.Text.{◌==◌, starts_with, is_lt}
use yokai.Prelude.Tests.{leb, ltb, eqb, if◌then◌else◌}

-- The concatenation of some texts.
unfoldable pub concat : List String → String
concat List.[] = ""
concat (List.◌∷◌ s l) = String.◌++◌ s (concat l)

-- strings.Join
unfoldable pub join : String → List String → String
join sep List.[] = ""
join sep (List.◌∷◌ s List.[]) = s
join sep (List.◌∷◌ s (List.◌∷◌ t l)) = String.◌++◌ s (String.◌++◌ sep (join sep (List.◌∷◌ t l)))

-- unicode.IsSpace
unfoldable pub is_space : Char → Bool
is_space ch =
    let c = code ch in
    (leb 9 c && leb c 13)
    || eqb c 32
    || eqb c 0x85
    || eqb c 0xA0
    || eqb c 0x1680
    || (leb 0x2000 c && leb c 0x200A)
    || eqb c 0x2028
    || eqb c 0x2029
    || eqb c 0x202F
    || eqb c 0x205F
    || eqb c 0x3000

-- unicode.IsControl
unfoldable pub is_control : Char → Bool
is_control ch = let c = code ch in leb c 0x1F || (leb 0x7F c && leb c 0x9F)

unfoldable pub any_char : (Char → Bool) → String → Bool
any_char p String.[] = false
any_char p (String.◌∷◌ c s) = p c || any_char p s

trim_left : String → String
trim_left String.[] = ""
trim_left (String.◌∷◌ c s) = if is_space c then trim_left s else String.◌∷◌ c s

-- Drops the white space at the end: a space goes if nothing is left behind it.
trim_right : String → String
trim_right String.[] = ""
trim_right (String.◌∷◌ c s) =
    let rest = trim_right s in if is_space c && rest == "" then "" else String.◌∷◌ c rest

-- strings.TrimSpace
unfoldable pub trim_space : String → String
unfolding trim_left trim_right is_space
trim_space s = trim_right (trim_left s)

replace_from : ℕ → ℕ → String → String → String → String
replace_from width skip old new String.[] = ""
replace_from width (suc skip) old new (String.◌∷◌ c s) = replace_from width skip old new s
replace_from width zero old new (String.◌∷◌ c s) =
    if starts_with (String.◌∷◌ c s) old
    then String.◌++◌ new (replace_from width (width - 1) old new s)
    else String.◌∷◌ c (replace_from width zero old new s)

-- strings.ReplaceAll, where the old text is not empty.
unfoldable pub replace_all : String → String → String → String
unfolding replace_from
replace_all s old new = replace_from (String.count old) 0 old new s

-- strings.Contains
unfoldable pub contains_text : String → String → Bool
contains_text String.[] sub = sub == ""
contains_text (String.◌∷◌ c s) sub = starts_with (String.◌∷◌ c s) sub || contains_text s sub

-- The simple folding of a character that can equal an ASCII one: the Kelvin sign is a k, and the
-- long s an s.
lower_char : Char → ℕ
lower_char ch =
    let c = code ch in
    if leb 65 c && leb c 90
    then c + 32
    else if eqb c 0x212A
    then 107
    else if eqb c 0x17F
    then 115
    else c

-- strings.EqualFold, where one of the texts is ASCII.
unfoldable pub equal_fold : String → String → Bool
unfolding lower_char
equal_fold String.[] String.[] = true
equal_fold String.[] (String.◌∷◌ d t) = false
equal_fold (String.◌∷◌ c s) String.[] = false
equal_fold (String.◌∷◌ c s) (String.◌∷◌ d t) = eqb (lower_char c) (lower_char d) && equal_fold s t

drop_chars : ℕ → String → String
drop_chars zero s = s
drop_chars (suc n) String.[] = ""
drop_chars (suc n) (String.◌∷◌ c s) = drop_chars n s

-- strings.TrimPrefix
unfoldable pub trim_prefix : String → String → String
unfolding drop_chars
trim_prefix s prefix = if starts_with s prefix then drop_chars (String.count prefix) s else s

-- What stands behind the first occurrence of a separator, as strings.Cut finds it.
unfoldable pub cut_after : String → String → Option String
unfolding drop_chars
cut_after String.[] sep = if sep == "" then some "" else none
cut_after (String.◌∷◌ c s) sep =
    if starts_with (String.◌∷◌ c s) sep
    then some (drop_chars (String.count sep) (String.◌∷◌ c s))
    else cut_after s sep

-- s < t
unfoldable pub text_lt : String → String → Bool
text_lt s t = is_lt (String.compare s t)

digit : ℕ → String
digit d = get_or ("0" ∷ "1" ∷ "2" ∷ "3" ∷ "4" ∷ "5" ∷ "6" ∷ "7" ∷ "8" ∷ "9" ∷ nil) d ""

-- The digits of a number in front of a text; a word of 64 bits has at most 20.
digits : ℕ → ℕ → String → String
unfolding digit
digits zero n acc = acc
digits (suc f) n acc =
    let acc' = String.◌++◌ (digit (n % 10)) acc in
    let rest = digits f (n / 10) acc' in if ltb n 10 then acc' else rest

-- strconv.Itoa
unfoldable pub itoa : ℤ → String
unfolding digits
itoa (pos n) = digits 20 n ""
itoa (negsuc n) = String.◌++◌ "-" (digits 20 (suc n) "")

-- The value of some decimal digits behind a number that has been read.
unfoldable pub read_digits : ℕ → String → Option ℕ
read_digits acc String.[] = some acc
read_digits acc (String.◌∷◌ ch s) =
    let c = code ch in
    let rest = read_digits (acc * 10 + (c - 48)) s in if leb 48 c && leb c 57 then rest else none

within : ℕ → (ℕ → ℤ) → Option ℕ → Option ℤ
within top sign none = none
within top sign (some n) = if leb n top then some (sign n) else none

minus : ℕ → ℤ
minus zero = pos 0
minus (suc n) = negsuc n

unsigned : (ℕ → ℤ) → ℕ → String → Option ℤ
unfolding within read_digits
unsigned sign top String.[] = none
unsigned sign top (String.◌∷◌ ch s) = within top sign (read_digits 0 (String.◌∷◌ ch s))

-- strconv.ParseInt of base 10 and 64 bits, which strconv.Atoi is on a machine of 64 bits; every
-- error is `none`.
unfoldable pub parse_int : String → Option ℤ
unfolding unsigned minus
parse_int String.[] = none
parse_int (String.◌∷◌ ch s) =
    if eqb (code ch) 45
    then unsigned minus (2 ^ 63) s
    else if eqb (code ch) 43
    then unsigned pos (2 ^ 63 - 1) s
    else unsigned pos (2 ^ 63 - 1) (String.◌∷◌ ch s)
