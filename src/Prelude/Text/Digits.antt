-- ===== src/Prelude/Text/Digits.antt =====
-- strconv.Itoa and strconv.ParseInt are inverse on 64 bits.
use Prim.Native.Char.{Char, code}
use Prim.Native.String.{String, []}
use Prim.Native.String
use Prim.Native.Nat.{ℕ, zero, suc, ◌+◌, ◌-◌, ◌*◌, ◌/◌, ◌%◌, ◌^◌, ◌<◌, ◌≤◌}
use mathlib.Core.Path.{◌≡◌, refl, ap, ◌∙◌}
use mathlib.Core.Logic.{inl, inr}
use mathlib.Core.Bool.{Bool, true, false, ◌&&◌, ◌||◌}
use mathlib.Core.Option.{some}
use native.Mathlib.Omega.{arith}
use text.Mathlib.TextLemmas.{nil-append, cons-append}
use yokai.Prelude.Int.{ℤ, pos, negsuc}
use yokai.Prelude.Tests.{leb, ltb, eqb, Bool-cases}
use yokai.Prelude.Text.{digit, digits, itoa, read_digits, within, minus, unsigned, parse_int}

abbrev pub is_digit : Char → Bool
is_digit c = leb 48 (code c) && leb (code c) 57

abbrev pub every_char : (Char → Bool) → String → Bool
every_char p String.[] = true
every_char p (String.◌∷◌ c s) = p c && every_char p s

abbrev pub is_filled : String → Bool
is_filled String.[] = false
is_filled (String.◌∷◌ c s) = true

one-append : (c : Char) (s : String) → String.◌++◌ (String.◌∷◌ c "") s ≡ String.◌∷◌ c s
one-append c s = cons-append c "" s ∙ ap (String.◌∷◌ c) (nil-append s)

-- One digit in front of a text.
digit-facts :
    (d a : ℕ) (s : String)
    → d < 10
    → (read_digits a (String.◌++◌ (digit d) s) ≡ read_digits (a * 10 + d) s)
      × (every_char is_digit (String.◌++◌ (digit d) s) ≡ every_char is_digit s)
      × (is_filled (String.◌++◌ (digit d) s) ≡ true)
unfolding digit read_digits
digit-facts zero a s h = rw (one-append "0" s) (refl, refl, refl)
digit-facts (suc zero) a s h = rw (one-append "1" s) (refl, refl, refl)
digit-facts (suc (suc zero)) a s h = rw (one-append "2" s) (refl, refl, refl)
digit-facts (suc (suc (suc zero))) a s h = rw (one-append "3" s) (refl, refl, refl)
digit-facts (suc (suc (suc (suc zero)))) a s h = rw (one-append "4" s) (refl, refl, refl)
digit-facts (suc (suc (suc (suc (suc zero))))) a s h = rw (one-append "5" s) (refl, refl, refl)
digit-facts (suc (suc (suc (suc (suc (suc zero)))))) a s h =
    rw (one-append "6" s) (refl, refl, refl)
digit-facts (suc (suc (suc (suc (suc (suc (suc zero))))))) a s h =
    rw (one-append "7" s) (refl, refl, refl)
digit-facts (suc (suc (suc (suc (suc (suc (suc (suc zero)))))))) a s h =
    rw (one-append "8" s) (refl, refl, refl)
digit-facts (suc (suc (suc (suc (suc (suc (suc (suc (suc zero))))))))) a s h =
    rw (one-append "9" s) (refl, refl, refl)
digit-facts (suc (suc (suc (suc (suc (suc (suc (suc (suc (suc d)))))))))) a s h =
    absurd (omega arith)

last_digit : (n : ℕ) → n < 10 → 0 * 10 + n % 10 ≡ n
last_digit n h = omega arith

all_digits : (n : ℕ) → n / 10 * 10 + n % 10 ≡ n
all_digits n = omega arith

next_bounds : (f n : ℕ) → n < 10 ^ suc f → ltb n 10 ≡ false → (n / 10 < 10 ^ f) × (0 < f)
next_bounds zero n h e = absurd (ground (arith, e, h))
next_bounds (suc f) n h e = (ground (arith, e, h), omega arith)

-- The digits of a number, read back in front of a text.
digits-facts :
    (f n : ℕ) (s : String)
    → n < 10 ^ f
    → 0 < f
    → (read_digits 0 (digits f n s) ≡ read_digits n s)
      × (every_char is_digit (digits f n s) ≡ every_char is_digit s)
      × (is_filled (digits f n s) ≡ true)
unfolding digits
digits-facts zero n s h k = absurd (omega arith)
digits-facts (suc f) n s h k =
    let (value, plain, filled) = digit-facts (n % 10) (n / 10) s (omega arith) in
    let (value0, plain0, filled0) = digit-facts (n % 10) 0 s (omega arith) in
    elim (Bool-cases (ltb n 10)) [
      | inl e ↦
          rw e
            (value0 ∙ ap (λ m. read_digits m s) (last_digit n (ground (arith, e))), plain0, filled0)
      | inr e ↦ rw e (
          let (small, more) = next_bounds f n h (ground (arith, e)) in
          let (value', plain', filled') =
            digits-facts f (n / 10) (String.◌++◌ (digit (n % 10)) s) small more in
          (value' ∙ value ∙ ap (λ m. read_digits m s) (all_digits n), plain' ∙ plain, filled'))
    ]

-- A number of at most 20 digits, read back.
read_digits-digits :
    (n : ℕ)
    → n < 10 ^ 20
    → (read_digits 0 (digits 20 n "") ≡ some n)
      × (every_char is_digit (digits 20 n "") ≡ true)
      × (is_filled (digits 20 n "") ≡ true)
unfolding read_digits
read_digits-digits n h = digits-facts 20 n "" h (omega arith)

unsigned_lem :
    (sign : ℕ → ℤ) (top n : ℕ) (s : String)
    → is_filled s ≡ true
    → read_digits 0 s ≡ some n
    → n ≤ top
    → unsigned sign top s ≡ some (sign n)
unfolding unsigned within
unsigned_lem sign top n String.[] h k l = absurd (ground (arith, h))
unsigned_lem sign top n (String.◌∷◌ c s) h k l = rw k (ground (arith, l))

-- A text that begins with a digit has no sign.
parse_int-digit :
    (s : String)
    → is_filled s ≡ true
    → every_char is_digit s ≡ true
    → parse_int s ≡ unsigned pos (2 ^ 63 - 1) s
unfolding parse_int
parse_int-digit String.[] h k = absurd (ground (arith, h))
parse_int-digit (String.◌∷◌ c s) h k = ground (arith, k)

pub parse_int-itoa : (n : ℕ) → n < 2 ^ 63 → parse_int (itoa (pos n)) ≡ some (pos n)
unfolding itoa
parse_int-itoa n h =
    let (value, plain, filled) = read_digits-digits n (omega arith) in
    parse_int-digit (digits 20 n "") filled plain
    ∙ unsigned_lem pos (2 ^ 63 - 1) n (digits 20 n "") filled value (omega arith)

pub parse_int-itoa_negative : (n : ℕ) → n < 2 ^ 63 → parse_int (itoa (negsuc n)) ≡ some (negsuc n)
unfolding itoa parse_int minus
parse_int-itoa_negative n h =
    let (value, plain, filled) = read_digits-digits (suc n) (omega arith) in
    rw (one-append "-" (digits 20 (suc n) ""))
      (unsigned_lem minus (2 ^ 63) (suc n) (digits 20 (suc n) "") filled value (omega arith))

-- A digit or a minus.
abbrev pub is_numeral : Char → Bool
is_numeral c = is_digit c || eqb (code c) 45

every_char-is_numeral : (s : String) → every_char is_digit s ≡ true → every_char is_numeral s ≡ true
every_char-is_numeral String.[] h = refl
every_char-is_numeral (String.◌∷◌ c s) h =
    ground (arith, h, every_char-is_numeral s (ground (arith, h)))

pub itoa-numerals : (n : ℕ) → n < 2 ^ 63 → every_char is_numeral (itoa (pos n)) ≡ true
unfolding itoa
itoa-numerals n h =
    let (value, plain, filled) = read_digits-digits n (omega arith) in
    every_char-is_numeral (digits 20 n "") plain

pub itoa-numerals_negative : (n : ℕ) → n < 2 ^ 63 → every_char is_numeral (itoa (negsuc n)) ≡ true
unfolding itoa
itoa-numerals_negative n h =
    let (value, plain, filled) = read_digits-digits (suc n) (omega arith) in
    rw (one-append "-" (digits 20 (suc n) "")) (every_char-is_numeral (digits 20 (suc n) "") plain)
