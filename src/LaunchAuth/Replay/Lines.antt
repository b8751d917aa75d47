-- ===== src/LaunchAuth/Replay/Lines.antt =====
-- A line of a replay file is read as the time that was written.
use Prim.Native.String
use text.Mathlib.TextLemmas.{cons-append}
use yokai.Prelude.{
  ℕ, ◌^◌, ◌<◌, ◌≡◌, refl, ap, sym, ◌∙◌, ℤ, pos, negsuc, String, concat, itoa, parse_int, true,
  false, some, [], ◌∷◌, arith,
}
use yokai.Prelude.Text.Digits.{
  every_char, is_numeral, itoa-numerals, itoa-numerals_negative, parse_int-itoa,
  parse_int-itoa_negative,
}
use yokai.LaunchAuth.Clock.{Time, unix, unix_sec, unix_of, later, is_before}
use yokai.LaunchAuth.Authorization.{lifetime}
use yokai.LaunchAuth.Replay.{is_blank, drop_start, drop_end, string_trim_space, line, is_over}

-- No character of a number is blank.
drop_end-numerals :
    (s : String) → every_char is_numeral s ≡ true → drop_end (String.◌++◌ s "\n") ≡ s
unfolding drop_end is_blank
drop_end-numerals String.[] h = refl
drop_end-numerals (String.◌∷◌ c s) h =
    let rest : drop_end (String.◌++◌ s "\n") ≡ s = drop_end-numerals s (ground (arith, h)) in
    rw (cons-append c s "\n") (rw rest (ground (arith, h)))

trimmed_line :
    (s : String) → every_char is_numeral s ≡ true → string_trim_space (concat (s ∷ "\n" ∷ [])) ≡ s
unfolding string_trim_space drop_start is_blank concat
trimmed_line String.[] h = refl
trimmed_line (String.◌∷◌ c s) h =
    let kept = drop_end-numerals (String.◌∷◌ c s) h in
    let solid : is_blank c ≡ false = ground (arith, h) in
    rw (cons-append c s "\n") (rw solid (ap drop_end (sym (cons-append c s "\n")) ∙ kept))

-- A value of a signed word of 64 bits.
abbrev pub IsWord : ℤ → Type 0
IsWord (pos n) = n < 2 ^ 63
IsWord (negsuc n) = n < 2 ^ 63

pub unix_sec-IsWord : (s : ℕ) → IsWord (unix_sec (pos s))
unfolding unix_sec
unix_sec-IsWord s = ground arith

unix_of-IsWord : (t : ℤ) → IsWord t → IsWord (unix_of t)
unfolding unix_of
unix_of-IsWord (pos n) h = ground (arith, h)
unix_of-IsWord (negsuc n) h = ground (arith, h)

unix_sec-unix_of : (t : ℤ) → IsWord t → unix_sec (unix_of t) ≡ t
unfolding unix_of unix_sec
unix_sec-unix_of (pos n) h = ground (arith, h)
unix_sec-unix_of (negsuc n) h = ground (arith, h)

read_number :
    (x : ℤ) → IsWord x → parse_int (string_trim_space (concat (itoa x ∷ "\n" ∷ []))) ≡ some x
read_number (pos n) h =
    ap parse_int (trimmed_line (itoa (pos n)) (itoa-numerals n h)) ∙ parse_int-itoa n h
read_number (negsuc n) h =
    ap parse_int (trimmed_line (itoa (negsuc n)) (itoa-numerals_negative n h))
    ∙ parse_int-itoa_negative n h

-- What the pruning makes of a line that Consume wrote.
pub is_over-line :
    (s : ℕ) (now : Time)
    → is_over (parse_int (string_trim_space (line (unix (pos s))))) now
      ≡ is_before (later lifetime (unix (pos s))) now
unfolding is_over line
is_over-line s now =
    let word = unix_sec-IsWord s in
    ap (λ o. is_over o now)
      (read_number (unix_of (unix_sec (pos s))) (unix_of-IsWord (unix_sec (pos s)) word))
    ∙ ap (λ t. is_before (later lifetime (record { sec = t; nsec = 0 })) now)
        (unix_sec-unix_of (unix_sec (pos s)) word)
