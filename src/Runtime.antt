-- ===== src/Runtime.antt =====
-- internal/runtime/runtime.go: a worker's process under one generation. `Runtime` holds the fields that
-- the methods guard by; `Host` is what the operating system answers. The lock makes each method one
-- action, but for `Write` and `Close`, which go on after they have released it: each begins with its
-- checks under the lock and ends later, and other actions may come between.
pub mod Attach
pub mod Lines
pub mod Drained
pub mod Gate
pub mod Trace
mod Tests
use omni_orchestration.Prelude.{
  ℕ, ◌+◌, String, str_eq, Bool, true, false, not, ◌||◌, Option, none, some, List, [], ◌∷◌, ◌++◌,
  ltb, ◌==◌, if◌then◌else◌,
}
use omni_orchestration.Session.{Result, ok, err}

-- An exit code of -1 is `none`: a signal, or a code that cannot be known.
pub record ExitEvent : Type 0 where
  pub exit_code : Option ℕ
  pub signaled : Bool

pub data Signal : Type 0 where
  interrupt_signal kill_signal : Signal

-- `process` is the PID of `cmd.Process`; `has_terminal` is whether `ptmx` is set; `exit` is set when `done`
-- is closed. `writing` has the inputs of the Writes that have passed their checks and not yet ended, and
-- `closing` is a Close that may still send SIGKILL. `written` has the inputs of which the terminal took
-- all or a part, and `signals` the signals sent.
pub record Runtime : Type 0 where
  pub process : Option ℕ
  pub gen : ℕ
  pub id : String
  pub started : Bool
  pub closed : Bool
  pub exit : Option ExitEvent
  pub has_terminal : Bool
  pub writing : List String
  pub closing : Bool
  pub written : List String
  pub signals : List Signal

pub data RuntimeError : Type 0 where
  runtime_closed not_started stale_generation already_started signal_failed : RuntimeError
  command_required no_directory pty_failed write_failed stop_failed : RuntimeError
  not_alive unverified command_mismatch start_time_mismatch cwd_mismatch : RuntimeError

-- Whether a path is a directory, and the PID of a new process with a group of its own (`true`) or
-- without (`false`).
pub record Host : Type 0 where
  pub is_dir : String → Bool
  pub spawn : Bool → String → String → Option ℕ

-- `New`, and `NewWithID` with a generation of at least 1.
abbrev pub new : Runtime
new = record {
  process = none;
  gen = 0;
  id = "";
  started = false;
  closed = false;
  exit = none;
  has_terminal = false;
  writing = [];
  closing = false;
  written = [];
  signals = [];
}

abbrev pub new_with_id : String → ℕ → Runtime
new_with_id id generation = record new { id = id; gen = if ltb generation 1 then 1 else generation }

abbrev pub cwd_or_root : String → String
cwd_or_root cwd = if str_eq cwd "" then "/" else cwd

-- The second try is without a process group.
abbrev pub spawned : Host → String → String → Option ℕ
spawned h command cwd = elim (h.spawn true command cwd) [
  | some pid ↦ some pid
  | none ↦ h.spawn false command cwd
]

abbrev pub assigned : Runtime → Runtime
assigned r = record r { gen = if r.gen == 0 then 1 else r.gen }

-- The generation is assigned before the process is tried.
abbrev pub with_pty : Runtime → Option ℕ → Result RuntimeError (Unit {0}) × Runtime
with_pty r none = (err pty_failed, assigned r)
with_pty r (some pid) =
    (ok tt, record (assigned r) { process = some pid; started = true; has_terminal = true })

unfoldable pub start : Host → String → String → Runtime → Result RuntimeError (Unit {0}) × Runtime
start h command cwd r =
    if r.started
    then (err already_started, r)
    else if r.closed
    then (err runtime_closed, r)
    else if str_eq command ""
    then (err command_required, r)
    else if not (h.is_dir (cwd_or_root cwd))
    then (err no_directory, r)
    else with_pty r (spawned h command (cwd_or_root cwd))

-- `Write` up to the unlock, and the test of the terminal. An attached runtime has none.
unfoldable pub begin_write : ℕ → String → Runtime → Result RuntimeError (Unit {0}) × Runtime
begin_write generation input r =
    if not r.started
    then (err not_started, r)
    else if r.closed
    then (err runtime_closed, r)
    else if not (generation == r.gen)
    then (err stale_generation, r)
    else if not r.has_terminal
    then (err runtime_closed, r)
    else (ok tt, record r { writing = r.writing ++ input ∷ [] })

-- What the terminal may answer to a Write: its file is closed, or it fails otherwise.
pub data WriteFault : Type 0 where
  file_closed other_fault : WriteFault

abbrev pub write_answer : Option WriteFault → Result RuntimeError (Unit {0})
write_answer none = ok tt
write_answer (some file_closed) = err runtime_closed
write_answer (some other_fault) = err write_failed

-- The rest of `Write`: `taken` is whether the terminal takes any of the input, which it may before it
-- fails, and `others` are the other Writes that have not ended.
unfoldable pub end_write :
    Bool
    → Option WriteFault
    → String
    → List String
    → Runtime
    → Result RuntimeError (Unit {0}) × Runtime
end_write taken fault input others r = (
  write_answer fault,
  record r { writing = others; written = if taken then r.written ++ input ∷ [] else r.written },
)

abbrev pub is_absent : Option ℕ → Bool
is_absent none = true
is_absent (some _) = false

-- `sent` is whether the process group takes the signal.
unfoldable pub interrupt : Bool → ℕ → Runtime → Result RuntimeError (Unit {0}) × Runtime
interrupt sent generation r =
    if not r.started || is_absent r.process
    then (err runtime_closed, r)
    else if not (generation == r.gen)
    then (err stale_generation, r)
    else if r.closed
    then (err runtime_closed, r)
    else if not sent
    then (err signal_failed, r)
    else (ok tt, record r { signals = r.signals ++ interrupt_signal ∷ [] })

-- How the process takes the closing of its terminal: it has ended already or ends within the grace
-- period, it ends on SIGKILL, or not even then. The event is what `watchExit` reports meanwhile.
pub data StopOutcome : Type 0 where
  ends : ExitEvent → StopOutcome
  ends_killed : ExitEvent → StopOutcome
  survives : StopOutcome

-- `doneOnce`: the first event stays.
abbrev pub report_exit : ExitEvent → Option ExitEvent → Option ExitEvent
report_exit e none = some e
report_exit e (some first) = some first

abbrev pub killed : Runtime → Runtime
killed r = record r { closing = false; signals = r.signals ++ kill_signal ∷ [] }

-- `watchExit`, and `watchAttached` once the process is gone.
unfoldable pub watch_exit : ExitEvent → Runtime → Runtime
watch_exit e r = record r { closed = true; exit = report_exit e r.exit }

-- What the checks of `Close` come to.
pub data Admission : Type 0 where
  refused : RuntimeError → Admission
  idle goes_on : Admission

unfoldable pub begin_close : ℕ → Runtime → Admission × Runtime
begin_close generation r =
    if not r.started
    then (idle, r)
    else if not (generation == r.gen)
    then (refused stale_generation, r)
    else if r.closed
    then (idle, r)
    else (goes_on, record r { closed = true; closing = true })

-- The rest of `Close`, where nothing but the watcher comes between.
unfoldable pub end_close : StopOutcome → Runtime → Result RuntimeError (Unit {0}) × Runtime
unfolding watch_exit
end_close (ends e) r = (ok tt, record (watch_exit e r) { closing = false })
end_close (ends_killed e) r = (ok tt, watch_exit e (killed r))
end_close survives r = (err stop_failed, killed r)

abbrev pub with_admission :
    StopOutcome → Admission → Runtime → Result RuntimeError (Unit {0}) × Runtime
with_admission outcome (refused e) r = (err e, r)
with_admission outcome idle r = (ok tt, r)
with_admission outcome goes_on r = end_close outcome r

unfoldable pub close : StopOutcome → ℕ → Runtime → Result RuntimeError (Unit {0}) × Runtime
unfolding begin_close end_close
close outcome generation r =
    with_admission outcome (begin_close generation r).0 (begin_close generation r).1

-- `Stop` closes under the runtime's own generation.
unfoldable pub stop : StopOutcome → Runtime → Result RuntimeError (Unit {0}) × Runtime
unfolding close
stop outcome r = if not r.started || r.closed then (ok tt, r) else close outcome r.gen r

-- `PID`, and `Wait` where the event is there.
abbrev pub pid : Runtime → ℕ
pid r = elim r.process [ some p ↦ p | none ↦ 0 ]

abbrev pub wait : Runtime → Option ExitEvent
wait r = r.exit
