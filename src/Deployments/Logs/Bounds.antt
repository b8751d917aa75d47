-- ===== src/Deployments/Logs/Bounds.antt =====
-- How much of a log is kept.
use Prim.Native.String.{len}
use yokai.Prelude.{ℕ, ◌≡◌, ◌≤◌, String, Bool, false, arith}
use yokai.Deployments.Logs.{
  max_log_tail_bytes, keep_last_bytes, sanitize_log_tail, last_clean_lines, cut,
}

len-keep_last_bytes : (n : ℕ) (s : String) → len (keep_last_bytes n s) ≤ n
unfolding keep_last_bytes
len-keep_last_bytes n String.[] = omega arith
len-keep_last_bytes n (String.◌∷◌ c s) = ground (arith, len-keep_last_bytes n s)

len-cut : (r : String × Bool) → len (cut r).0 ≤ max_log_tail_bytes
unfolding cut
len-cut (clean, truncated) = ground (arith, len-keep_last_bytes max_log_tail_bytes clean)

-- Whatever the log, the key and the redaction, the tail has at most 256 KiB.
pub len-sanitize_log_tail :
    (redact : String → String) (raw key : String)
    → len (sanitize_log_tail redact raw key).0 ≤ max_log_tail_bytes
unfolding sanitize_log_tail
len-sanitize_log_tail redact raw key = len-cut (last_clean_lines redact raw key)

uncut : (r : String × Bool) → (cut r).1 ≡ false → r ≡ ((cut r).0, false)
unfolding cut
uncut (clean, truncated) h = ground (arith, h)

-- A log that is not marked as truncated is handed on with all its clean lines.
pub sanitize_log_tail-uncut :
    (redact : String → String) (raw key : String)
    → (sanitize_log_tail redact raw key).1 ≡ false
    → last_clean_lines redact raw key ≡ ((sanitize_log_tail redact raw key).0, false)
unfolding sanitize_log_tail
sanitize_log_tail-uncut redact raw key h = uncut (last_clean_lines redact raw key) h
