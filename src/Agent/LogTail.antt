-- ===== src/Agent/LogTail.antt =====
-- internal/agent/log_tail.go: the last bytes of a container's log. The mutex is not modelled: a
-- write and an output are one step each. The command `docker logs` is a parameter: the chunks that
-- it writes, and the error of its run. `text_of` is Go's conversion of bytes to a string.
pub mod Refine
mod Lines
mod Example
use yokai.Prelude.{
  ℕ, ◌+◌, ◌-◌, ◌*◌, String, Bool, true, false, not, ◌&&◌, ◌||◌, Option, none, some, is_some, List,
  [], ◌∷◌, ◌++◌, ℤ, pos, negsuc, leb, ltb, eqb, if◌then◌else◌, length, drop, is_empty,
}
use yokai.Deployments.Errors.{Err, wrapped, Result, ok, err}
use yokai.Deployments.Types.{LogTailCapture}
use yokai.Deployments.Logs.{max_log_tail_bytes, sanitize_log_tail}

abbrev pub Bytes : Type 0
Bytes = List ℕ

-- dockerLogTailOutput
pub record LogTailOutput : Type 0 where
  pub data_read : Bytes
  pub truncated : Bool

-- boundedTailWriter
pub record Writer : Type 0 where
  pub buffer : Bytes
  pub limit : ℕ
  pub truncated : Bool

-- newBoundedTailWriter
abbrev pub new_writer : ℤ → Writer
new_writer (pos n) = record { buffer = []; limit = n; truncated = false }
new_writer (negsuc n) = record { buffer = []; limit = 0; truncated = false }

-- The last part of Write: the oldest bytes that do not fit go, and the data is appended.
unfoldable pub append_shifted : Writer → Bytes → Writer
append_shifted w data_in =
    let total = length w.buffer + length data_in in
    if ltb w.limit total
    then record {
      buffer = drop (total - w.limit) w.buffer ++ data_in;
      limit = w.limit;
      truncated = true;
    }
    else record { buffer = w.buffer ++ data_in; limit = w.limit; truncated = w.truncated }

-- Write, with the number of bytes that it reports.
unfoldable pub write : Writer → Bytes → Writer × ℕ
unfolding append_shifted
write w data_in =
    if eqb w.limit 0
    then (record w { truncated = w.truncated || ltb 0 (length data_in) }, length data_in)
    else if leb w.limit (length data_in)
    then (
      record {
        buffer = drop (length data_in - w.limit) data_in;
        limit = w.limit;
        truncated = w.truncated || ltb 0 (length w.buffer) || ltb w.limit (length data_in);
      },
      length data_in,
    )
    else (append_shifted w data_in, length data_in)

-- The writes of a command, in order.
unfoldable pub write_all : Writer → List Bytes → Writer
unfolding write
write_all w [] = w
write_all w (d ∷ ds) = write_all (write w d).0 ds

-- output
abbrev pub output : Writer → LogTailOutput
output w = record { data_read = w.buffer; truncated = w.truncated }

-- runDockerLogTail
unfoldable pub run_log_tail : List Bytes → Option Err → LogTailOutput × Option Err
unfolding write_all
run_log_tail chunks none = (output (write_all (new_writer (pos max_log_tail_bytes)) chunks), none)
run_log_tail chunks (some e) = (
  output (write_all (new_writer (pos max_log_tail_bytes)) chunks),
  some (wrapped "docker logs failed: " e ""),
)

-- What follows a line end: the line feed of a carriage return and line feed goes with it.
unfoldable pub after_line_end : ℕ → Bytes → Bytes
after_line_end value [] = []
after_line_end value (b ∷ bs) = if eqb value 13 && eqb b 10 then bs else b ∷ bs

-- discardPotentiallyPartialLogLine
unfoldable pub discard_partial_line : Bytes → Bytes
unfolding after_line_end
discard_partial_line [] = []
discard_partial_line (value ∷ bs) =
    let rest = discard_partial_line bs in
    if eqb value 10 || eqb value 13 then after_line_end value bs else rest

-- What is left to sanitize of an output.
unfoldable pub kept_bytes : LogTailOutput → Bytes
unfolding discard_partial_line
kept_bytes o = if o.truncated then discard_partial_line o.data_read else o.data_read

module _ (text_of : Bytes → String) (redact : String → String) where
  unfoldable pub capture : String → LogTailOutput → Bool → LogTailCapture
  unfolding kept_bytes sanitize_log_tail
  capture key o partial =
      let (tail, truncated) = sanitize_log_tail redact (text_of (kept_bytes o)) key in
      record { tail = tail; truncated = partial || o.truncated || truncated }

  -- captureContainerLogTail
  unfoldable pub capture_container_log_tail :
      String → LogTailOutput × Option Err → Result LogTailCapture
  unfolding capture
  capture_container_log_tail key (o, none) = ok (capture key o false)
  capture_container_log_tail key (o, some e) =
      if is_empty o.data_read then err e else ok (capture key o true)
