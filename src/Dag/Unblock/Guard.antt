-- ===== src/Dag/Unblock/Guard.antt =====
-- internal/dag/dag.go: the fan-in guarantee, by which a pending task has only completed parents.
use omni_orchestration.Prelude.{
  ℕ, ◌≡◌, ◌≢◌, ◌⊎◌, inl, inr, true, ◌∙◌, sym, ◌==◌, if◌then◌else◌, arith, Bool-cases, &&-eq-true,
  IsIn, update_where-IsIn, ap,
}
use omni_orchestration.Dag.{
  Status, pending, blocked, completed, failed, Task, Dag, in_state, with_status, same_status,
}
use omni_orchestration.Dag.Unblock.Settle.{ParentOf, IsReady, moved}
use omni_orchestration.Dag.Unblock.Verdict.{Settled, unblocks, fails, waits}

abbrev pub IsGuarded : Dag → Type 0
IsGuarded d = (t : Task) → IsIn t d.tasks → t.status ≡ pending → IsReady t.id d

eq_of_same_status : (a b : Status) → same_status a b ≡ true → a ≡ b
eq_of_same_status a b h = ground arith

abbrev Kept : Status → Status → Task → Task → Type 0
Kept from to before after =
    (after.id ≡ before.id)
    × (((before.status ≡ from) × (after.status ≡ to)) ⊎ (after.status ≡ before.status))

module _ (from to : Status) (child : ℕ) (d : Dag) where
  row-Kept :
      (t b : Task) → t ≡ (if in_state child from b then with_status to b else b) → Kept from to b t
  row-Kept t b e = elim (Bool-cases (in_state child from b)) [
    | inl hit ↦
        let now : t ≡ with_status to b = e ∙ rw hit in
        let both = &&-eq-true (b.id == child) (same_status b.status from) hit in
        (ap (λ x. x.id) now, inl (eq_of_same_status _ _ both.1, ap (λ x. x.status) now))
    | inr miss ↦ let now : t ≡ b = e ∙ rw miss in (ap (λ x. x.id) now, inr (ap (λ x. x.status) now))
  ]

  -- A parent in the new tables was a parent before, and only a row with status `from` changed.
  parent_before :
      (c : ℕ) (r : ParentOf c (moved from to child d))
      → (q : ParentOf c d) × Kept from to q.task r.task
  parent_before c r =
      let (b, m, e) =
        update_where-IsIn (in_state child from) (with_status to) r.task d.tasks r.task_in in
      let k = row-Kept r.task b e in
      (
        record {
          edge = r.edge;
          task = b;
          edge_in = r.edge_in;
          task_in = m;
          of_child = r.of_child;
          is_parent = sym k.0 ∙ r.is_parent;
        },
        k,
      )

  -- A child whose parents have all completed keeps that while other rows are moved.
  moved-IsReady : (c : ℕ) → from ≢ completed → IsReady c d → IsReady c (moved from to child d)
  moved-IsReady c h ready r =
      let (q, k) = parent_before c r in
      elim k.1 [ inl changed ↦ absurd (h (sym changed.0 ∙ ready q)) | inr same ↦ same ∙ ready q ]

-- Each settled child keeps what is ready, and the guard.
pub Settled-IsReady : (child c : ℕ) {d d' : Dag} → Settled child d d' → IsReady c d → IsReady c d'
Settled-IsReady child c {d} {d'} (unblocks h e) ready =
    rw e (moved-IsReady blocked pending child d c (λ x. ground arith) ready)
Settled-IsReady child c {d} {d'} (fails e) ready =
    rw e (moved-IsReady blocked failed child d c (λ x. ground arith) ready)
Settled-IsReady child c {d} {d'} (waits h e) ready = rw e ready

module _ (child : ℕ) (d : Dag) (guarded : IsGuarded d) where
  unblocks-IsGuarded : IsReady child d → IsGuarded (moved blocked pending child d)
  unblocks-IsGuarded ready t m p =
      let (b, n, e) =
        update_where-IsIn (in_state child blocked) (with_status pending) t d.tasks m in
      elim (Bool-cases (in_state child blocked b)) [
        | inl hit ↦
            let now : t.id ≡ child = ground arith in
            moved-IsReady blocked pending child d t.id (λ x. ground arith) (rw now ready)
        | inr miss ↦
            let now : t ≡ b = e ∙ rw miss in
            moved-IsReady blocked pending child d t.id (λ x. ground arith)
              (rw (ap (λ x. x.id) now) (guarded b n (sym (ap (λ x. x.status) now) ∙ p)))
      ]

  fails-IsGuarded : IsGuarded (moved blocked failed child d)
  fails-IsGuarded t m p =
      let (b, n, e) = update_where-IsIn (in_state child blocked) (with_status failed) t d.tasks m in
      elim (Bool-cases (in_state child blocked b)) [
        | inl hit ↦ absurd (ground arith)
        | inr miss ↦
            let now : t ≡ b = e ∙ rw miss in
            moved-IsReady blocked failed child d t.id (λ x. ground arith)
              (rw (ap (λ x. x.id) now) (guarded b n (sym (ap (λ x. x.status) now) ∙ p)))
      ]

  pub Settled-IsGuarded : {d' : Dag} → Settled child d d' → IsGuarded d'
  Settled-IsGuarded (unblocks h e) = rw e (unblocks-IsGuarded h)
  Settled-IsGuarded (fails e) = rw e fails-IsGuarded
  Settled-IsGuarded (waits h e) = rw e guarded
