-- ===== src/Deployments/Env.antt =====
-- The world that the engine of internal/deployments acts on: the device operations
-- (`Operations` of types.go), the file behind the store, the clock and the timers. What it
-- answers may depend on all that went before, so it is a record of functions of the events so
-- far; a theorem over every `Env` covers every behaviour of the agents, of the disk and of what
-- else happens on the devices between two calls.
use yokai.Prelude.{ℕ, String, Bool, Option, List, ◌∷◌}
use yokai.Bkc.Types.{Config}
use yokai.Deployments.Errors.{Err, Result}
use yokai.Deployments.Types.{
  Binding, Member, LogTailCapture, TestResult, Deployment, Candidate, PreflightRequest,
  ObservedContainer,
}

-- The context of a call: the caller's, which may be cancelled, or the bounded one that cleanup
-- gets, which does not inherit a cancellation.
pub data Context : Type 0 where
  caller cleanup : Context

-- A call of the engine with its answer; the newest stands first in a list of events.
pub data Event : Type 0 where
  preflighted : Context → PreflightRequest → Option Err → Event
  pulled : Context → Binding → String → Option Err → Event
  inspected : Context → String → String → Result ObservedContainer → Event
  stopped : Context → String → String → Option Err → Event
  stopped_managed : Context → Deployment → Member → Option Err → Event
  launched : Context → Binding → Candidate → Result ObservedContainer → Event
  waited_running : Context → String → String → Option Err → Event
  tested : Context → String → String → String → Result TestResult → Event
  captured_logs : Context → Deployment → Member → String → Result LogTailCapture → Event
  removed_managed : Context → Deployment → Member → Option Err → Event
  restarted : Context → String → String → Option Err → Event
  restarted_managed : Context → Deployment → Member → Option Err → Event
  -- the deployment put, whether the document was promoted, and the error of the write
  wrote : Deployment → Bool → Option Err → Event
  slept : Option Err → Event

-- A parsed address: its canonical text, and whether it is unspecified, loopback or multicast.
pub record IpAddress : Type 0 where
  pub text : String
  pub is_unspecified : Bool
  pub is_loopback : Bool
  pub is_multicast : Bool

-- What requestHash hashes.
pub record CanonicalRequest : Type 0 where
  pub bkc_id : String
  pub idempotency_key : String
  pub bindings : List Binding
  pub local_model_path : String

pub record Env : Type 0 where
  -- the entries of the compiled-in catalog
  pub catalog : List Config
  pub preflight : List Event → Context → PreflightRequest → List String → List String → Option Err
  pub pull : List Event → Context → Binding → String → Option Err
  pub inspect : List Event → Context → String → String → Result ObservedContainer
  pub stop : List Event → Context → String → String → Option Err
  pub stop_managed : List Event → Context → Deployment → Member → Option Err
  pub launch : List Event → Context → Binding → Candidate → Result ObservedContainer
  pub wait_running : List Event → Context → String → String → Option Err
  pub test : List Event → Context → String → String → String → Result TestResult
  pub capture_logs : List Event → Context → Deployment → Member → String → Result LogTailCapture
  pub remove_managed : List Event → Context → Deployment → Member → Option Err
  pub restart : List Event → Context → String → String → Option Err
  pub restart_managed : List Event → Context → Deployment → Member → Option Err
  -- the `write` field of the store: promoted, and the error
  pub write : List Event → List Deployment → Bool × Option Err
  -- Now().UTC() and NewID()
  pub now : List Event → ℕ
  pub new_id : List Event → String
  -- ctx.Err() of the caller
  pub request_error : List Event → Option Err
  -- how many intervals pass before a readiness timer of that length fires, and whether the
  -- context ends during one of them
  pub rounds : List Event → ℕ → ℕ → ℕ
  pub interrupted : List Event → Option Err
  -- the configured durations of the engine, in nanoseconds; 0 stands for none
  pub readiness_timeout : ℕ
  pub readiness_interval : ℕ
  -- the four regular-expression replacements of logs.go
  pub redact : String → String
  -- the provenance that the catalog pins for the GLM and the Qwen recipe
  pub pinned : Config → Option String
  -- net.ParseIP, and the functions of path/filepath
  pub parse_ip : String → Option IpAddress
  pub clean_path : String → String
  pub is_abs : String → Bool
  pub base_name : String → String
  pub dir_name : String → String
  -- SHA-256 of the canonical JSON, in hexadecimal
  pub hash : CanonicalRequest → Result String

-- What the engine keeps: the store's document, and the events so far.
pub record Sys : Type 0 where
  pub doc : List Deployment
  pub events : List Event

abbrev pub M {ℓ} : Type ℓ → Type ℓ
M A = Sys → A × Sys

infixl 5 ◌>>=◌
-- One program, and then the one that its result picks.
abbrev pub ◌>>=◌ {κ ℓ} : {B : Type κ} {A : Type ℓ} → M B → (B → M A) → M A
◌>>=◌ first rest s = let (b, s') = first s in rest b s'

abbrev pub pure {ℓ} : {A : Type ℓ} → A → M A
pure a s = (a, s)

abbrev emit : Sys → Event → Sys
emit s e = record s { events = e ∷ s.events }

-- The calls.
module _ (env : Env) where
  abbrev pub call_preflight :
      Context → PreflightRequest → List String → List String → M (Option Err)
  call_preflight ctx r capabilities targets s =
      let a = env.preflight s.events ctx r capabilities targets in (a, emit s (preflighted ctx r a))

  abbrev pub call_pull : Context → Binding → String → M (Option Err)
  call_pull ctx b image s =
      let a = env.pull s.events ctx b image in (a, emit s (pulled ctx b image a))

  abbrev pub call_inspect : Context → String → String → M (Result ObservedContainer)
  call_inspect ctx device locator s =
      let a = env.inspect s.events ctx device locator in
      (a, emit s (inspected ctx device locator a))

  abbrev pub call_stop : Context → String → String → M (Option Err)
  call_stop ctx device id s =
      let a = env.stop s.events ctx device id in (a, emit s (stopped ctx device id a))

  abbrev pub call_stop_managed : Context → Deployment → Member → M (Option Err)
  call_stop_managed ctx d m s =
      let a = env.stop_managed s.events ctx d m in (a, emit s (stopped_managed ctx d m a))

  abbrev pub call_launch : Context → Binding → Candidate → M (Result ObservedContainer)
  call_launch ctx b c s = let a = env.launch s.events ctx b c in (a, emit s (launched ctx b c a))

  abbrev pub call_wait_running : Context → String → String → M (Option Err)
  call_wait_running ctx device id s =
      let a = env.wait_running s.events ctx device id in
      (a, emit s (waited_running ctx device id a))

  abbrev pub call_test : Context → String → String → String → M (Result TestResult)
  call_test ctx device locator key s =
      let a = env.test s.events ctx device locator key in
      (a, emit s (tested ctx device locator key a))

  abbrev pub call_capture_logs : Context → Deployment → Member → String → M (Result LogTailCapture)
  call_capture_logs ctx d m redaction s =
      let a = env.capture_logs s.events ctx d m redaction in
      (a, emit s (captured_logs ctx d m redaction a))

  abbrev pub call_remove_managed : Context → Deployment → Member → M (Option Err)
  call_remove_managed ctx d m s =
      let a = env.remove_managed s.events ctx d m in (a, emit s (removed_managed ctx d m a))

  abbrev pub call_restart : Context → String → String → M (Option Err)
  call_restart ctx device id s =
      let a = env.restart s.events ctx device id in (a, emit s (restarted ctx device id a))

  abbrev pub call_restart_managed : Context → Deployment → Member → M (Option Err)
  call_restart_managed ctx d m s =
      let a = env.restart_managed s.events ctx d m in (a, emit s (restarted_managed ctx d m a))

  abbrev pub call_now : M ℕ
  call_now s = (env.now s.events, s)

  abbrev pub call_new_id : M String
  call_new_id s = (env.new_id s.events, s)

  abbrev pub call_request_error : M (Option Err)
  call_request_error s = (env.request_error s.events, s)

  abbrev pub call_rounds : ℕ → ℕ → M ℕ
  call_rounds timeout interval s = (env.rounds s.events timeout interval, s)

  abbrev pub call_sleep : M (Option Err)
  call_sleep s = let a = env.interrupted s.events in (a, emit s (slept a))
