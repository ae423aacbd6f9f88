-- ===== src/Supervisor.antt =====
-- internal/supervisor/supervisor.go: the liveness observer. `Observe`'s goroutine is a loop over
-- what its `select` receives, one event after the other; the channel and the callback are the list of
-- changes that `emit` hands out.
pub mod Trace
pub mod Ending
mod Tests
use omni_orchestration.Prelude.{
  ℕ, ◌+◌, ◌-◌, Bool, true, false, ◌&&◌, ◌||◌, not, Option, none, some, List, [], ◌∷◌, ◌++◌, ltb,
  leb, ◌==◌, if◌then◌else◌,
}

pub data State : Type 0 where
  unknown active quiescent_candidate exited crashed : State

abbrev pub same_state : State → State → Bool
same_state unknown unknown = true
same_state active active = true
same_state quiescent_candidate quiescent_candidate = true
same_state exited exited = true
same_state crashed crashed = true
same_state _ _ = false

abbrev pub is_terminal : State → Bool
is_terminal exited = true
is_terminal crashed = true
is_terminal _ = false

pub record StateChange : Type 0 where
  pub from : State
  pub to : State
  pub observed_at : ℕ

pub record Config : Type 0 where
  pub quiescence_timeout : ℕ
  pub poll_interval : ℕ

-- Times are seconds; the defaults stand in for 0, as `New` takes them for 0 and below.
abbrev pub new_config : Config → Config
new_config cfg = record {
  quiescence_timeout = if cfg.quiescence_timeout == 0 then 30 else cfg.quiescence_timeout;
  poll_interval = if cfg.poll_interval == 0 then 5 else cfg.poll_interval;
}

abbrev pub default_config : Config
default_config = record { quiescence_timeout = 30; poll_interval = 5 }

-- What the `select` receives, with the time: the context is done, the output channel delivers (`false`
-- when it is closed), the process has exited with a code (any number but 0 stands for a negative one too), or
-- the ticker fires.
pub data Event : Type 0 where
  cancels : ℕ → Event
  output : ℕ → Bool → Event
  exits : ℕ → ℕ → Event
  tick : ℕ → Event

-- The variables `current` and `lastOutput`.
pub record Observer : Type 0 where
  pub current : State
  pub last_output : ℕ

-- `emit`: the new value of `current`, and the change if there is one. The same state and a terminal one
-- are left alone.
abbrev pub next_state : State → State → State
next_state from to = if same_state from to || is_terminal from then from else to

abbrev pub change_of : ℕ → State → State → List StateChange
change_of now from to =
    if same_state from to || is_terminal from
    then []
    else record { from = from; to = to; observed_at = now } ∷ []

abbrev pub ended : ℕ → State
ended code = if code == 0 then exited else crashed

-- One round: the state that is emitted, and whether the loop goes on. `none` emits nothing.
abbrev pub target : Config → Observer → Event → Option State
target cfg o (cancels now) = some unknown
target cfg o (output now ok) = if ok then some active else none
target cfg o (exits now code) = some (ended code)
target cfg o (tick now) =
    if same_state o.current active && leb cfg.quiescence_timeout (now - o.last_output)
    then some quiescent_candidate
    else none

abbrev pub time_of : Event → ℕ
time_of (cancels now) = now
time_of (output now _) = now
time_of (exits now _) = now
time_of (tick now) = now

abbrev pub stops : Event → Bool
stops (cancels _) = true
stops (exits _ _) = true
stops _ = false

abbrev pub refreshed : Event → ℕ → ℕ
refreshed (output now true) last = now
refreshed _ last = last

abbrev pub moved : Option State → State → State
moved none from = from
moved (some to) from = next_state from to

abbrev pub changes : ℕ → Option State → State → List StateChange
changes now none from = []
changes now (some to) from = change_of now from to

abbrev pub after : Config → Observer → Event → Observer
after cfg o e = record {
  current = moved (target cfg o e) o.current;
  last_output = refreshed e o.last_output;
}

-- What a round of the loop receives, and which case the `select` in `emit` takes: a change is dropped
-- only when the context is done.
pub record Round : Type 0 where
  pub event : Event
  pub delivered : Bool

abbrev pub sent : Config → Observer → Round → List StateChange
sent cfg o r =
    if r.delivered then changes (time_of r.event) (target cfg o r.event) o.current else []

-- The loop, which ends with the context or the process.
unfoldable pub observe_from : Config → Observer → List Round → List StateChange
observe_from cfg o [] = []
observe_from cfg o (r ∷ rs) =
    let rest = observe_from cfg (after cfg o r.event) rs in
    sent cfg o r ++ (if stops r.event then [] else rest)

abbrev pub first_sent : Bool → StateChange → List StateChange
first_sent delivered c = if delivered then c ∷ [] else []

-- `Observe`: a runtime that has exited already gives one change, another starts as ACTIVE. `delivered`
-- is for that first change.
unfoldable pub observe : Config → ℕ → Bool → Option ℕ → List Round → List StateChange
unfolding observe_from
observe cfg now delivered (some code) rs =
    first_sent delivered (record { from = unknown; to = ended code; observed_at = now })
observe cfg now delivered none rs =
    first_sent delivered (record { from = unknown; to = active; observed_at = now })
    ++ observe_from cfg (record { current = active; last_output = now }) rs
