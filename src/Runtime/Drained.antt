-- ===== src/Runtime/Drained.antt =====
-- internal/runtime/runtime.go: what a closed runtime still does.
use omni_orchestration.Prelude.{
  ◌≡◌, refl, sym, ap, ◌∙◌, String, Bool, true, false, Option, List, [], ◌∷◌, ◌++◌, arith, ◌⊎◌, inl,
  inr, Bool-cases, IsIn, here, there, IsIn-append, IsIn-append_left, IsIn-append_right,
  IsIn-singleton,
}
use mathlib.Core.List.{append_assoc, append-nil}
use omni_orchestration.Runtime.{
  Runtime, Host, WriteFault, start, begin_write, end_write, interrupt, begin_close, kill_signal,
  watch_exit,
}
use omni_orchestration.Runtime.Trace.{
  Step, Steps, Steps-Stays, starts, begins_write, ends_write, interrupts, begins_close, kills,
  ends_close, exits, done, then_step,
}

-- What a closed runtime may still see: the Writes that had passed their checks end, and the Close that is
-- under way sends its SIGKILL, once.
pub record Drains (r r' : Runtime) : Type 0 where
  pub writing_left : (x : String) → IsIn x r'.writing → IsIn x r.writing
  pub written_last :
      (late : List String) × (r'.written ≡ r.written ++ late)
      × ((x : String) → IsIn x late → IsIn x r.writing)
  pub killed_once :
      ((r'.signals ≡ r.signals) × (r'.closing ≡ true → r.closing ≡ true))
      ⊎ ((r.closing ≡ true) × (r'.closing ≡ false) × (r'.signals ≡ r.signals ++ kill_signal ∷ []))

pub Drains-refl : (r : Runtime) → Drains r r
Drains-refl r = record {
  writing_left = λ x m. m;
  written_last = ([], sym (append-nil r.written), λ x m. elim m [ ]);
  killed_once = inl (refl, λ h. h);
}

signals_trans :
    (a b c : Runtime)
    → Drains a b
    → Drains b c
    → ((c.signals ≡ a.signals) × (c.closing ≡ true → a.closing ≡ true))
      ⊎ ((a.closing ≡ true) × (c.closing ≡ false) × (c.signals ≡ a.signals ++ kill_signal ∷ []))
signals_trans a b c h k = elim h.killed_once [
  | inl (same, kept) ↦ elim k.killed_once [
    | inl (same', kept') ↦ inl (same' ∙ same, λ e. kept (kept' e))
    | inr (open_close, over, sent) ↦
        inr (kept open_close, over, sent ∙ ap (λ s. s ++ kill_signal ∷ []) same)
  ]
  | inr (open_close, over, sent) ↦ elim k.killed_once [
    | inl (same', kept') ↦ elim (Bool-cases c.closing) [
      | inl again ↦ let twice = kept' again in absurd (ground arith)
      | inr ended ↦ inr (open_close, ended, same' ∙ sent)
    ]
    | inr (again, over', sent') ↦ absurd (ground arith)
  ]
]

Drains-trans : (a b c : Runtime) → Drains a b → Drains b c → Drains a c
Drains-trans a b c h k =
    let (late, first, old) = h.written_last in
    let (later, second, older) = k.written_last in
    record {
      writing_left = λ x m. h.writing_left x (k.writing_left x m);
      written_last = (
        late ++ later,
        second ∙ ap (λ s. s ++ later) first ∙ append_assoc a.written late later,
        λ x m. elim (IsIn-append x late later m) [
          | inl n ↦ old x n
          | inr n ↦ h.writing_left x (older x n)
        ],
      );
      killed_once = signals_trans a b c h k;
    }

IsIn-middle :
    (x : String) (before : List String) (y : String) (after : List String)
    → IsIn x (before ++ after)
    → IsIn x (before ++ y ∷ after)
IsIn-middle x before y after m = elim (IsIn-append x before after m) [
  | inl n ↦ IsIn-append_left x before (y ∷ after) n
  | inr n ↦ IsIn-append_right x before (y ∷ after) (there n)
]

end_write-Drains :
    (taken : Bool) (fault : Option WriteFault) (before : List String) (input : String)
    (after : List String) (r : Runtime)
    → r.writing ≡ before ++ input ∷ after
    → Drains r (end_write taken fault input (before ++ after) r).1
unfolding end_write
end_write-Drains true fault before input after r e = record {
  writing_left = λ x m. rw e (IsIn-middle x before input after m);
  written_last = (
    input ∷ [],
    refl,
    λ x m.
        rw (e, IsIn-singleton x input m)
          (IsIn-append_right input before (input ∷ after) (here refl)),
  );
  killed_once = inl (refl, λ h. h);
}
end_write-Drains false fault before input after r e = record {
  writing_left = λ x m. rw e (IsIn-middle x before input after m);
  written_last = ([], sym (append-nil r.written), λ x m. elim m [ ]);
  killed_once = inl (refl, λ h. h);
}

same-Drains : (r r' : Runtime) → r' ≡ r → Drains r r'
same-Drains r r' e = rw e (Drains-refl r)

Step-Drains :
    (h : Host) (r r' : Runtime) → r.started ≡ true → r.closed ≡ true → Step h r r' → Drains r r'
unfolding start begin_write interrupt begin_close watch_exit
Step-Drains h r r' s c (starts command cwd e) = same-Drains r r' (e ∙ ground arith)
Step-Drains h r r' s c (begins_write g input e) = same-Drains r r' (e ∙ ground arith)
Step-Drains h r r' s c (ends_write taken fault before input after given e) =
    rw e (end_write-Drains taken fault before input after r given)
Step-Drains h r r' s c (interrupts sent g e) = same-Drains r r' (e ∙ ground arith)
Step-Drains h r r' s c (begins_close g e) = same-Drains r r' (e ∙ ground arith)
Step-Drains h r r' s c (kills busy e) = rw e (record {
  writing_left = λ x m. m;
  written_last = ([], sym (append-nil r.written), λ x m. elim m [ ]);
  killed_once = inr (busy, refl, refl);
})
Step-Drains h r r' s c (ends_close busy e) = rw e (record {
  writing_left = λ x m. m;
  written_last = ([], sym (append-nil r.written), λ x m. elim m [ ]);
  killed_once = inl (refl, λ k. absurd (ground arith));
})
Step-Drains h r r' s c (exits event _ e) = rw e (record {
  writing_left = λ x m. m;
  written_last = ([], sym (append-nil r.written), λ x m. elim m [ ]);
  killed_once = inl (refl, λ k. k);
})

pub Steps_drain :
    (h : Host) (r r' : Runtime) → r.started ≡ true → r.closed ≡ true → Steps h r r' → Drains r r'
Steps_drain h r r' s c done = Drains-refl r
Steps_drain h r r' s c (then_step {r1} steps step) =
    let k = Steps-Stays h r r1 steps in
    Drains-trans r r1 r' (Steps_drain h r r1 s c steps)
      (Step-Drains h r1 r' (k.started_stays s) (k.closed_stays c) step)
