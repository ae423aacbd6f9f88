-- ===== src/Runtime/Trace.antt =====
-- The life of a runtime that is started, not attached: what its callers and its watcher do, one action
-- after the other, with a Write and a Close in two.
use omni_orchestration.Prelude.{
  ℕ, ◌≡◌, refl, ◌∙◌, String, Bool, true, false, Option, none, some, List, ◌∷◌, ◌++◌, arith, inl,
  inr, Bool-cases,
}
use omni_orchestration.Runtime.{
  Runtime, Host, ExitEvent, WriteFault, start, begin_write, end_write, interrupt, begin_close,
  killed, watch_exit, report_exit, with_pty, spawned, cwd_or_root,
}

-- One action of a caller, or the watcher's.
pub data Step (h : Host) (r : Runtime) (r' : Runtime) : Type 0 where
  starts : (command cwd : String) → r' ≡ (start h command cwd r).1 → Step h r r'
  begins_write : (g : ℕ) (input : String) → r' ≡ (begin_write g input r).1 → Step h r r'
  ends_write :
      (taken : Bool) (fault : Option WriteFault) (before : List String) (input : String)
      (after : List String)
      → r.writing ≡ before ++ input ∷ after
      → r' ≡ (end_write taken fault input (before ++ after) r).1
      → Step h r r'
  interrupts : (sent : Bool) (g : ℕ) → r' ≡ (interrupt sent g r).1 → Step h r r'
  begins_close : (g : ℕ) → r' ≡ (begin_close g r).1 → Step h r r'
  kills : r.closing ≡ true → r' ≡ killed r → Step h r r'
  ends_close : r.closing ≡ true → r' ≡ record r { closing = false } → Step h r r'
  exits : (e : ExitEvent) → r.started ≡ true → r' ≡ watch_exit e r → Step h r r'

pub data Steps (h : Host) (r : Runtime) : Runtime → Type 0 where
  done : Steps h r r
  then_step : {r1 r2 : Runtime} → Steps h r r1 → Step h r1 r2 → Steps h r r2

-- What never changes back.
pub record Stays (r r' : Runtime) : Type 0 where
  pub started_stays : r.started ≡ true → r'.started ≡ true
  pub closed_stays : r.closed ≡ true → r'.closed ≡ true
  pub gen_stays : r.started ≡ true → r'.gen ≡ r.gen
  pub exit_stays : (e : ExitEvent) → r.exit ≡ some e → r'.exit ≡ some e

Stays-refl : (r : Runtime) → Stays r r
Stays-refl r = record {
  started_stays = λ h. h;
  closed_stays = λ h. h;
  gen_stays = λ h. refl;
  exit_stays = λ e h. h;
}

Stays-trans : (a b c : Runtime) → Stays a b → Stays b c → Stays a c
Stays-trans a b c h k = record {
  started_stays = λ s. k.started_stays (h.started_stays s);
  closed_stays = λ s. k.closed_stays (h.closed_stays s);
  gen_stays = λ s. k.gen_stays (h.started_stays s) ∙ h.gen_stays s;
  exit_stays = λ e s. k.exit_stays e (h.exit_stays e s);
}

begin_write-Stays : (g : ℕ) (input : String) (r : Runtime) → Stays r (begin_write g input r).1
unfolding begin_write
begin_write-Stays g input r = record {
  started_stays = λ h. ground arith;
  closed_stays = λ h. ground arith;
  gen_stays = λ h. ground arith;
  exit_stays = λ e h. ground arith;
}

end_write-Stays :
    (taken : Bool) (fault : Option WriteFault) (input : String) (others : List String) (r : Runtime)
    → Stays r (end_write taken fault input others r).1
unfolding end_write
end_write-Stays true fault input others r = record {
  started_stays = λ h. h;
  closed_stays = λ h. h;
  gen_stays = λ h. refl;
  exit_stays = λ e h. h;
}
end_write-Stays false fault input others r = record {
  started_stays = λ h. h;
  closed_stays = λ h. h;
  gen_stays = λ h. refl;
  exit_stays = λ e h. h;
}

interrupt-Stays : (sent : Bool) (g : ℕ) (r : Runtime) → Stays r (interrupt sent g r).1
unfolding interrupt
interrupt-Stays sent g r = record {
  started_stays = λ h. ground arith;
  closed_stays = λ h. ground arith;
  gen_stays = λ h. ground arith;
  exit_stays = λ e h. ground arith;
}

begin_close-Stays : (g : ℕ) (r : Runtime) → Stays r (begin_close g r).1
unfolding begin_close
begin_close-Stays g r = record {
  started_stays = λ h. ground arith;
  closed_stays = λ h. ground arith;
  gen_stays = λ h. ground arith;
  exit_stays = λ e h. ground arith;
}

report_exit_stays :
    (e first : ExitEvent) (o : Option ExitEvent) → o ≡ some first → report_exit e o ≡ some first
report_exit_stays e first none h = absurd (ground arith)
report_exit_stays e first (some given) h = h

with_pty_exit : (r : Runtime) (o : Option ℕ) → (with_pty r o).1.exit ≡ r.exit
with_pty_exit r none = refl
with_pty_exit r (some pid) = refl

start_exit :
    (h : Host) (command cwd : String) (r : Runtime) → (start h command cwd r).1.exit ≡ r.exit
unfolding start
start_exit h command cwd r = ground (arith, with_pty_exit r (spawned h command (cwd_or_root cwd)))

start-Stays : (h : Host) (command cwd : String) (r : Runtime) → Stays r (start h command cwd r).1
unfolding start
start-Stays h command cwd r = elim (Bool-cases r.started) [
  | inl begun ↦ let same : (start h command cwd r).1 ≡ r = ground arith in rw same (Stays-refl r)
  | inr idle ↦ elim (Bool-cases r.closed) [
    | inl closed ↦ let same : (start h command cwd r).1 ≡ r = ground arith in rw same (Stays-refl r)
    | inr open_one ↦ record {
      started_stays = λ k. absurd (ground arith);
      closed_stays = λ k. absurd (ground arith);
      gen_stays = λ k. absurd (ground arith);
      exit_stays = λ e k. start_exit h command cwd r ∙ k;
    }
  ]
]

watch_exit-Stays : (e : ExitEvent) (r : Runtime) → Stays r (watch_exit e r)
unfolding watch_exit
watch_exit-Stays e r = record {
  started_stays = λ h. h;
  closed_stays = λ h. refl;
  gen_stays = λ h. refl;
  exit_stays = λ first h. report_exit_stays e first r.exit h;
}

same-Stays :
    (r r' : Runtime)
    → r'.started ≡ r.started
    → r'.closed ≡ r.closed
    → r'.gen ≡ r.gen
    → r'.exit ≡ r.exit
    → Stays r r'
same-Stays r r' a b c d = record {
  started_stays = λ h. a ∙ h;
  closed_stays = λ h. b ∙ h;
  gen_stays = λ h. c;
  exit_stays = λ e h. d ∙ h;
}

pub Step-Stays : (h : Host) (r r' : Runtime) → Step h r r' → Stays r r'
Step-Stays h r r' (starts command cwd e) = rw e (start-Stays h command cwd r)
Step-Stays h r r' (begins_write g input e) = rw e (begin_write-Stays g input r)
Step-Stays h r r' (ends_write taken fault before input after given e) =
    rw e (end_write-Stays taken fault input (before ++ after) r)
Step-Stays h r r' (interrupts sent g e) = rw e (interrupt-Stays sent g r)
Step-Stays h r r' (begins_close g e) = rw e (begin_close-Stays g r)
Step-Stays h r r' (kills _ e) = rw e (same-Stays r (killed r) refl refl refl refl)
Step-Stays h r r' (ends_close _ e) =
    rw e (same-Stays r (record r { closing = false }) refl refl refl refl)
Step-Stays h r r' (exits event _ e) = rw e (watch_exit-Stays event r)

-- Whatever callers and the watcher do, in whichever order, with a Write and a Close going on after their
-- checks while others act: a runtime that has started stays so under its generation, one that is closed
-- stays so, and the exit event, once stored, stays the one stored first.
pub Steps-Stays : (h : Host) (r r' : Runtime) → Steps h r r' → Stays r r'
Steps-Stays h r r' done = Stays-refl r
Steps-Stays h r r' (then_step {r1} steps step) =
    Stays-trans r r1 r' (Steps-Stays h r r1 steps) (Step-Stays h r1 r' step)
