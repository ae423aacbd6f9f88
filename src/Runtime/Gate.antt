-- ===== src/Runtime/Gate.antt =====
-- internal/runtime/runtime.go: the guards of the methods, and the runtimes that `New`, `NewWithID` and the
-- methods make.
use omni_orchestration.Prelude.{
  ℕ, ◌≤◌, ◌≡◌, ◌≢◌, refl, sym, ◌∙◌, String, str_eq, Bool, true, false, not, Option, none, some,
  List, ◌++◌, ◌==◌, arith, ◌⊎◌, inl, inr, Bool-cases,
}
use omni_orchestration.Session.{ok, err}
use omni_orchestration.Runtime.{
  Runtime, Host, ExitEvent, StopOutcome, WriteFault, stale_generation, start, begin_write,
  end_write, interrupt, begin_close, close, killed, watch_exit, with_pty, spawned, cwd_or_root, new,
  is_absent,
}
use omni_orchestration.Runtime.Trace.{
  Step, Steps, starts, begins_write, ends_write, interrupts, begins_close, kills, ends_close, exits,
  done, then_step,
}

-- A holder of another generation than the runtime's changes nothing: Write, Interrupt and Close are
-- refused, once the runtime has started.
pub stale_refuses :
    (r : Runtime) (g : ℕ) (input : String) (sent : Bool) (o : StopOutcome)
    → g ≢ r.gen
    → r.started ≡ true
    → ((begin_write g input r).1 ≡ r)
      × ((begin_write g input r).0 ≢ ok tt)
      × ((interrupt sent g r).1 ≡ r)
      × ((interrupt sent g r).0 ≢ ok tt)
      × (close o g r ≡ (err stale_generation, r))
unfolding begin_write interrupt close begin_close
stale_refuses r g input sent o n s =
    let other : (g == r.gen) ≡ false = ground arith in
    (ground arith, λ e. ground arith, ground arith, λ e. ground arith, ground arith)

-- A runtime is closed only after it has started, closed once its process has ended, and started only
-- under a generation and with a process.
pub record IsValid (r : Runtime) : Type 0 where
  pub closed_started : r.closed ≡ true → r.started ≡ true
  pub ended_closed : (e : ExitEvent) → r.exit ≡ some e → r.closed ≡ true
  pub started_gen : r.started ≡ true → 1 ≤ r.gen
  pub started_process : r.started ≡ true → is_absent r.process ≡ false

pub new-IsValid : IsValid new
new-IsValid = record {
  closed_started = λ h. cc;
  ended_closed = λ e h. absurd (ground arith);
  started_gen = λ h. absurd (ground arith);
  started_process = λ h. absurd (ground arith);
}

with_pty-IsValid :
    (r : Runtime) (o : Option ℕ) → IsValid r → r.started ≡ false → IsValid (with_pty r o).1
with_pty-IsValid r none v s = record {
  closed_started = v.closed_started;
  ended_closed = v.ended_closed;
  started_gen = λ h. absurd (ground arith);
  started_process = λ h. absurd (ground arith);
}
with_pty-IsValid r (some pid) v s = record {
  closed_started = λ h. refl;
  ended_closed = v.ended_closed;
  started_gen = λ h. ground arith;
  started_process = λ h. refl;
}

start_cases :
    (h : Host) (command cwd : String) (r : Runtime)
    → ((start h command cwd r).1 ≡ r)
      ⊎ ((r.started ≡ false)
          × ((start h command cwd r).1 ≡ (with_pty r (spawned h command (cwd_or_root cwd))).1))
unfolding start
start_cases h command cwd r = elim (Bool-cases r.started) [
  | inl begun ↦ inl (ground arith)
  | inr idle ↦ elim (Bool-cases r.closed) [
    | inl closed ↦ inl (ground arith)
    | inr fresh ↦ elim (Bool-cases (str_eq command "")) [
      | inl empty ↦ inl (ground arith)
      | inr given ↦ elim (Bool-cases (not (h.is_dir (cwd_or_root cwd)))) [
        | inl missing ↦ inl (ground arith)
        | inr found ↦ inr (idle, ground arith)
      ]
    ]
  ]
]

start-IsValid :
    (h : Host) (command cwd : String) (r : Runtime) → IsValid r → IsValid (start h command cwd r).1
start-IsValid h command cwd r v = elim (start_cases h command cwd r) [
  | inl same ↦ rw same v
  | inr (idle, made) ↦ rw made (with_pty-IsValid r (spawned h command (cwd_or_root cwd)) v idle)
]

begin_write-IsValid :
    (g : ℕ) (input : String) (r : Runtime) → IsValid r → IsValid (begin_write g input r).1
unfolding begin_write
begin_write-IsValid g input r v = record {
  closed_started = λ h. ground (arith, v.closed_started);
  ended_closed = λ e h. ground (arith, v.ended_closed e);
  started_gen = λ h. ground (arith, v.started_gen);
  started_process = λ h. ground (arith, v.started_process);
}

end_write-IsValid :
    (taken : Bool) (fault : Option WriteFault) (input : String) (others : List String) (r : Runtime)
    → IsValid r
    → IsValid (end_write taken fault input others r).1
unfolding end_write
end_write-IsValid taken fault input others r v = record {
  closed_started = λ h. ground (arith, v.closed_started);
  ended_closed = λ e h. ground (arith, v.ended_closed e);
  started_gen = λ h. ground (arith, v.started_gen);
  started_process = λ h. ground (arith, v.started_process);
}

interrupt-IsValid : (sent : Bool) (g : ℕ) (r : Runtime) → IsValid r → IsValid (interrupt sent g r).1
unfolding interrupt
interrupt-IsValid sent g r v = record {
  closed_started = λ h. ground (arith, v.closed_started);
  ended_closed = λ e h. ground (arith, v.ended_closed e);
  started_gen = λ h. ground (arith, v.started_gen);
  started_process = λ h. ground (arith, v.started_process);
}

begin_close-IsValid : (g : ℕ) (r : Runtime) → IsValid r → IsValid (begin_close g r).1
unfolding begin_close
begin_close-IsValid g r v = record {
  closed_started = λ h. ground (arith, v.closed_started);
  ended_closed = λ e h. ground (arith, v.ended_closed e);
  started_gen = λ h. ground (arith, v.started_gen);
  started_process = λ h. ground (arith, v.started_process);
}

-- The flag of a Close under way and the signals do not matter.
over-IsValid :
    (r r' : Runtime)
    → (r'.started ≡ r.started) × (r'.closed ≡ r.closed)
    → (r'.exit ≡ r.exit) × (r'.gen ≡ r.gen) × (r'.process ≡ r.process)
    → IsValid r
    → IsValid r'
over-IsValid r r' (s, c) (e, g, p) v = record {
  closed_started = λ h. s ∙ v.closed_started (sym c ∙ h);
  ended_closed = λ first h. c ∙ v.ended_closed first (sym e ∙ h);
  started_gen = λ h. rw g (v.started_gen (sym s ∙ h));
  started_process = λ h. rw p (v.started_process (sym s ∙ h));
}

watch_exit-IsValid :
    (e : ExitEvent) (r : Runtime) → r.started ≡ true → IsValid r → IsValid (watch_exit e r)
unfolding watch_exit
watch_exit-IsValid e r s v = record {
  closed_started = λ h. s;
  ended_closed = λ first h. refl;
  started_gen = v.started_gen;
  started_process = v.started_process;
}

Step-IsValid : (h : Host) (r r' : Runtime) → Step h r r' → IsValid r → IsValid r'
Step-IsValid h r r' (starts command cwd e) v = rw e (start-IsValid h command cwd r v)
Step-IsValid h r r' (begins_write g input e) v = rw e (begin_write-IsValid g input r v)
Step-IsValid h r r' (ends_write taken fault before input after _ e) v =
    rw e (end_write-IsValid taken fault input (before ++ after) r v)
Step-IsValid h r r' (interrupts sent g e) v = rw e (interrupt-IsValid sent g r v)
Step-IsValid h r r' (begins_close g e) v = rw e (begin_close-IsValid g r v)
Step-IsValid h r r' (kills _ e) v =
    rw e (over-IsValid r (killed r) (refl, refl) (refl, refl, refl) v)
Step-IsValid h r r' (ends_close _ e) v =
    rw e (over-IsValid r (record r { closing = false }) (refl, refl) (refl, refl, refl) v)
Step-IsValid h r r' (exits event s e) v = rw e (watch_exit-IsValid event r s v)

pub Steps-IsValid : (h : Host) (r r' : Runtime) → Steps h r r' → IsValid r → IsValid r'
Steps-IsValid h r r' done v = v
Steps-IsValid h r r' (then_step {r1} steps step) v =
    Step-IsValid h r1 r' step (Steps-IsValid h r r1 steps v)
