-- ===== src/Deployments/Errors.antt =====
-- Go's errors as values, and internal/deployments/errors.go; the sentinels of internal/launchauth
-- stand with them.
use yokai.Prelude.{
  String, ◌==◌, concat, if◌then◌else◌, Bool, true, false, Option, none, some, [], ◌∷◌,
}

pub data ErrorKind : Type 0 where
  validation conflict dependency unavailable : ErrorKind

-- The errors that `errors.Is` looks for.
pub data Sentinel : Type 0 where
  idempotency_conflict recovery_performed container_not_found service_unauthorized : Sentinel
  not_found canceled deadline_exceeded : Sentinel
  launch_invalid launch_expired launch_replayed : Sentinel

-- `plain` is `fmt.Errorf` or `errors.New` with nothing wrapped; `wrapped` is `fmt.Errorf` whose
-- verb %w holds the cause, with the texts before and after it; `operation` is `*OperationError`; `panicked`
-- is a run-time panic of Go, such as an index out of range.
pub data Err : Type 0 where
  plain : String → Err
  sentinel : Sentinel → Err
  wrapped : String → Err → String → Err
  operation : ErrorKind → String → Err → Err
  panicked : Err

pub data Result {ℓ} (A : Type ℓ) : Type ℓ where
  ok : A → Result A
  err : Err → Result A

-- ErrorKindOf: the kind of the outermost `*OperationError` in the chain, `none` for "".
unfoldable pub error_kind_of : Err → Option ErrorKind
error_kind_of (plain m) = none
error_kind_of (sentinel s) = none
error_kind_of (wrapped pre e post) = error_kind_of e
error_kind_of (operation k op e) = some k
error_kind_of panicked = none

-- WrapError at an error that is there.
unfoldable pub wrap_error : ErrorKind → String → Err → Err
unfolding error_kind_of
wrap_error kind op e = elim (error_kind_of e) [ some k ↦ e | none ↦ operation kind op e ]

abbrev pub same_sentinel : Sentinel → Sentinel → Bool
same_sentinel idempotency_conflict idempotency_conflict = true
same_sentinel recovery_performed recovery_performed = true
same_sentinel container_not_found container_not_found = true
same_sentinel service_unauthorized service_unauthorized = true
same_sentinel not_found not_found = true
same_sentinel canceled canceled = true
same_sentinel deadline_exceeded deadline_exceeded = true
same_sentinel launch_invalid launch_invalid = true
same_sentinel launch_expired launch_expired = true
same_sentinel launch_replayed launch_replayed = true
same_sentinel _ _ = false

-- errors.Is
unfoldable pub is_error : Err → Sentinel → Bool
is_error (plain m) s = false
is_error (sentinel t) s = same_sentinel t s
is_error (wrapped pre e post) s = is_error e s
is_error (operation k op e) s = is_error e s
is_error panicked s = false

sentinel_text : Sentinel → String
sentinel_text idempotency_conflict = "idempotency key already used for a different request"
sentinel_text recovery_performed =
    "incomplete idempotent request was reconciled; use a new idempotency key to create a new deployment"
sentinel_text container_not_found = "container not found"
sentinel_text service_unauthorized = "model service rejected the API key"
sentinel_text not_found = "deployment not found"
sentinel_text canceled = "context canceled"
sentinel_text deadline_exceeded = "context deadline exceeded"
sentinel_text launch_invalid = "invalid launch authorization"
sentinel_text launch_expired = "expired launch authorization"
sentinel_text launch_replayed = "launch authorization was already used"

-- Error(): the texts from the outside in, with `: ` between them.
unfoldable pub error_text : Err → String
unfolding sentinel_text concat
error_text (plain m) = m
error_text (sentinel s) = sentinel_text s
error_text (wrapped pre e post) = concat (pre ∷ error_text e ∷ post ∷ [])
error_text (operation k op e) =
    let cause = error_text e in if op == "" then cause else concat (op ∷ ": " ∷ cause ∷ [])
error_text panicked = "runtime error"
