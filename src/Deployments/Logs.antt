-- ===== src/Deployments/Logs.antt =====
-- internal/deployments/logs.go. A text is a sequence of characters, so invalid UTF-8 does not
-- occur; lengths in bytes are those of its UTF-8. The four regular expressions that redact an
-- API key are a parameter.
pub mod Bounds
use Prim.Native.Char.{Char, code, len_utf8}
use Prim.Native.String.{len}
use Prim.Native.String
use yokai.Prelude.{
  ℕ, zero, suc, ◌+◌, ◌-◌, String, ◌==◌, Bool, true, false, not, ◌&&◌, ◌||◌, List, leb, ltb, eqb,
  if◌then◌else◌, replace_all,
}

-- MaxLogTailLines, MaxLogTailBytes
abbrev pub max_log_tail_lines : ℕ
max_log_tail_lines = 2000

abbrev pub max_log_tail_bytes : ℕ
max_log_tail_bytes = 262144

abbrev pub is_newline : Char → Bool
is_newline c = eqb (code c) 10

-- The loop over the runes: a newline or a tab is kept, another control character dropped.
unfoldable pub drop_controls : String → String
drop_controls String.[] = ""
drop_controls (String.◌∷◌ ch s) =
    let c = code ch in
    let rest = drop_controls s in
    if eqb c 10 || eqb c 9
    then String.◌∷◌ ch rest
    else if ltb c 0x20 || eqb c 0x7f || (leb 0x80 c && leb c 0x9f)
    then rest
    else String.◌∷◌ ch rest

unfoldable pub reverse_onto : String → String → String
reverse_onto String.[] acc = acc
reverse_onto (String.◌∷◌ c s) acc = reverse_onto s (String.◌∷◌ c acc)

-- The loop of keepLastLogLines from the end: `before` is what is not yet read, last character
-- first, and `after` what has been read; `left` more newlines end it.
unfoldable pub scan_back : ℕ → String → String → String × Bool
scan_back left String.[] after = (after, false)
scan_back left (String.◌∷◌ c before) after =
    let on = scan_back left before (String.◌∷◌ c after) in
    let counted = scan_back (left - 1) before (String.◌∷◌ c after) in
    if is_newline c then (if eqb left 1 then (after, true) else counted) else on

skip_last : ℕ → String → String × Bool
skip_last left String.[] = ("", false)
skip_last left (String.◌∷◌ c before) =
    if is_newline c
    then scan_back left before (String.◌∷◌ c "")
    else scan_back left (String.◌∷◌ c before) ""

-- keepLastLogLines
unfoldable pub keep_last_log_lines : String → ℕ → String × Bool
unfolding skip_last scan_back reverse_onto
keep_last_log_lines value zero = ("", not (value == ""))
keep_last_log_lines value (suc n) = skip_last (suc n) (reverse_onto value "")

-- The byte cut: the longest suffix of whole characters of at most that many bytes.
unfoldable pub keep_last_bytes : ℕ → String → String
keep_last_bytes maximum String.[] = ""
keep_last_bytes maximum (String.◌∷◌ c s) =
    if leb (len (String.◌∷◌ c s)) maximum then String.◌∷◌ c s else keep_last_bytes maximum s

cut : String × Bool → String × Bool
unfolding keep_last_bytes
cut (clean, truncated) =
    if ltb max_log_tail_bytes (len clean)
    then (keep_last_bytes max_log_tail_bytes clean, true)
    else (clean, truncated)

-- The clean lines, before the byte cut; `redact` makes the four regular-expression replacements.
unfoldable pub last_clean_lines : (String → String) → String → String → String × Bool
unfolding keep_last_log_lines
last_clean_lines redact raw exact_api_key =
    let newlines = replace_all (replace_all raw "\r\n" "\n") "\r" "\n" in
    let safe = drop_controls newlines in
    let exact = if exact_api_key == "" then safe else replace_all safe exact_api_key "[REDACTED]" in
    keep_last_log_lines (redact exact) max_log_tail_lines

-- SanitizeLogTail
unfoldable pub sanitize_log_tail : (String → String) → String → String → String × Bool
unfolding cut
sanitize_log_tail redact raw exact_api_key = cut (last_clean_lines redact raw exact_api_key)
