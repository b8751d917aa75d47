-- ===== src/Agent/LogTail/Lines.antt =====
-- What of a log the agent passes on: whole lines at the end of it.
use Prim.Native.String.{len}
use yokai.Prelude.{
  ◌≡◌, ◌≤◌, String, Bool, true, false, ◌||◌, ◌⊎◌, Option, none, some, [], ◌∷◌, ◌++◌, eqb, is_empty,
}
use yokai.Deployments.Errors.{Err, Result, ok, err}
use yokai.Deployments.Types.{LogTailCapture}
use yokai.Deployments.Logs.{max_log_tail_bytes, last_clean_lines, sanitize_log_tail}
use yokai.Agent.LogTail.{Bytes}

abbrev pub ends_line : Bytes → Bool
ends_line [] = false
ends_line (b ∷ []) = eqb b 10 || eqb b 13
ends_line (b ∷ c ∷ bs) = ends_line (c ∷ bs)

-- A part at the end of some bytes: all of them, none, or a part right behind a line end.
abbrev pub IsLineSuffix : Bytes → Bytes → Type 0
IsLineSuffix all kept =
    (before : Bytes) × (all ≡ before ++ kept)
    × ((is_empty before || is_empty kept || ends_line before) ≡ true)

-- A part that stands behind a line end, if it is not empty.
IsBehindLine : Bytes → Bytes → Type 0
IsBehindLine all kept =
    (before : Bytes) × (all ≡ before ++ kept) × ((is_empty kept || ends_line before) ≡ true)

-- What the answer says of the output `all` of a command and of the command's error.
abbrev pub IsCaptured :
    (Bytes → String)
    → (String → String)
    → String
    → Bytes
    → Option Err
    → Result LogTailCapture
    → Type 0
IsCaptured text_of redact key all error (err e) = (error ≡ some e) × (all ≡ [])
IsCaptured text_of redact key all error (ok c) =
    (kept : Bytes) × IsLineSuffix all kept
    × (c.tail ≡ (sanitize_log_tail redact (text_of kept) key).0)
    × (len c.tail ≤ max_log_tail_bytes)
    × ((c.truncated ≡ true)
        ⊎ ((kept ≡ all)
            × (error ≡ none)
            × (last_clean_lines redact (text_of all) key ≡ (c.tail, false))))
