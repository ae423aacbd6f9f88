-- ===== src/Orchestrator/Recovery/Again.antt =====
-- internal/orchestrator/recovery.go: two calls of `Reconcile`, one after the other.
use omni_orchestration.Prelude.{
  ℕ, ◌≡◌, refl, sym, ap, ◌∙◌, Bool, true, false, List, [], ◌∷◌, ◌==◌, length, arith, inl, inr,
  Bool-cases, keep_where, IsIn, here, there, update_where-IsIn, IsIn-keep_where,
}
use omni_orchestration.Session.{Result, ok, Session}
use omni_orchestration.Taskstore.{Taskstore, Attempt, Error, quiet}
use omni_orchestration.Taskstore.Work.{get_active_attempts, is_active}
use omni_orchestration.Orchestrator.Recovery.{reconcile, reconcile_active, ReconcileResult}
use omni_orchestration.Orchestrator.Recovery.Quiet.{
  is_lost, interrupt, interrupt_rows, settle_one, settle_each, count_each, reconcile_each-quiet,
}
use omni_orchestration.Orchestrator.Recovery.Lost.{is_lost-settle_one, is_lost-settle_each}

-- A row that is active after one attempt is settled was there before, and it is not that attempt's,
-- if that one was lost.
settle_one_active :
    (alive : ℕ → Bool) (a b : Attempt) (t : Taskstore)
    → IsIn b (settle_one alive a t).attempts.rows
    → is_active b.status ≡ true
    → IsIn b t.attempts.rows × (a.id ≡ b.id → is_lost alive t.workers.rows a ≡ false)
settle_one_active alive a b t m active = elim (Bool-cases (is_lost alive t.workers.rows a)) [
  | inr kept ↦ (rw kept at m, λ _. kept)
  | inl lost ↦
      let n : IsIn b (interrupt_rows a.id t.attempts.rows) = rw lost at m in
      let (c, old, e) = update_where-IsIn (λ r. r.id == a.id) interrupt b t.attempts.rows n in
      elim (Bool-cases (c.id == a.id)) [
        | inl same ↦
            let made : b ≡ interrupt c = rw same at e in
            let k : is_active b.status ≡ false = ap (λ (r : Attempt). is_active r.status) made in
            absurd (let j : false ≡ true = sym k ∙ active in cc)
        | inr other ↦ let made : b ≡ c = rw other at e in (rw made old, λ k. absurd (ground arith))
      ]
]

settle_each_active :
    (alive : ℕ → Bool) (found : List Attempt) (b : Attempt) (t : Taskstore)
    → IsIn b (settle_each alive found t).attempts.rows
    → is_active b.status ≡ true
    → IsIn b t.attempts.rows
      × ((a : Attempt) → IsIn a found → a.id ≡ b.id → is_lost alive t.workers.rows a ≡ false)
unfolding settle_each
settle_each_active alive [] b t m active = (m, λ a n. elim n [ ])
settle_each_active alive (c ∷ rest) b t m active =
    let (n, later) = settle_each_active alive rest b (settle_one alive c t) m active in
    let (old, now) = settle_one_active alive c b t n active in
    (
      old,
      λ a k. elim k [
        | here e ↦ rw e now
        | there l ↦ λ same. sym (is_lost-settle_one alive c a t) ∙ later a l same
      ],
    )

-- Settling attempts none of which is lost changes nothing.
settle_none :
    (alive : ℕ → Bool) (found : List Attempt) (t : Taskstore)
    → ((a : Attempt) → IsIn a found → is_lost alive t.workers.rows a ≡ false)
    → (settle_each alive found t ≡ t) × (count_each alive found t ≡ 0)
unfolding settle_each count_each
settle_none alive [] t h = (refl, refl)
settle_none alive (a ∷ rest) t h =
    let kept : is_lost alive t.workers.rows a ≡ false = h a (here refl) in
    let (same, none_found) = settle_none alive rest t (λ b m. h b (there m)) in
    rw kept (same, omega arith)

abbrev pub active_of : Taskstore → List Attempt
active_of t = keep_where (λ r. is_active r.status) t.attempts.rows

keep_where-IsIn :
    (a : Attempt) (xs : List Attempt)
    → IsIn a (keep_where (λ r. is_active r.status) xs)
    → IsIn a xs × (is_active a.status ≡ true)
keep_where-IsIn a [] m = elim m [ ]
keep_where-IsIn a (x ∷ xs) m = elim (Bool-cases (is_active x.status)) [
  | inr gone ↦ let (n, k) = keep_where-IsIn a xs (rw gone at m) in (there n, k)
  | inl kept ↦
      let n : IsIn a (x ∷ keep_where (λ r. is_active r.status) xs) = rw kept at m in
      elim n [
        | here e ↦ (here e, rw e kept)
        | there l ↦ let (o, k) = keep_where-IsIn a xs l in (there o, k)
      ]
]

-- What the attempts are that stay active: they were active before, and each has a checkpoint or a live
-- worker.
reconciled_active :
    (alive : ℕ → Bool) (b : Attempt) (t : Taskstore)
    → IsIn b (active_of (settle_each alive (active_of t) t))
    → IsIn b (active_of t) × (is_lost alive t.workers.rows b ≡ false)
reconciled_active alive b t m =
    let (n, active) = keep_where-IsIn b (settle_each alive (active_of t) t).attempts.rows m in
    let (old, kept) = settle_each_active alive (active_of t) b t n active in
    let before = IsIn-keep_where (λ r. is_active r.status) b t.attempts.rows old active in
    (before, kept b before refl)

abbrev result_of : (ℕ → Bool) → Taskstore → ReconcileResult
result_of alive t = record {
  orphan_runs = length (active_of t);
  recovered_runs = length (active_of t);
  interrupted_count = count_each alive (active_of t) t;
  errors = [];
}

reconcile-quiet :
    (alive : ℕ → Bool) (t : Taskstore)
    → reconcile alive (quiet t)
      ≡ (ok (result_of alive t), quiet (settle_each alive (active_of t) t))
unfolding reconcile get_active_attempts reconcile_active
reconcile-quiet alive t = rw (reconcile_each-quiet alive (active_of t) t) refl

-- On a session without faults, the attempts that are active after Reconcile were active before it, and
-- each has a checkpoint or a live worker. While the same processes live, a second Reconcile interrupts
-- none and leaves every table as it is.
pub reconcile_again :
    (alive : ℕ → Bool) (t : Taskstore)
    → (t' : Taskstore) × (r : ReconcileResult) × ((reconcile alive (quiet t)).1 ≡ quiet t')
      × ((b : Attempt)
          → IsIn b (active_of t')
          → IsIn b (active_of t) × (is_lost alive t.workers.rows b ≡ false))
      × (reconcile alive (quiet t') ≡ (ok r, quiet t'))
      × (r.interrupted_count ≡ 0)
reconcile_again alive t =
    let t' = settle_each alive (active_of t) t in
    let still : (b : Attempt) → IsIn b (active_of t') → is_lost alive t'.workers.rows b ≡ false =
      λ b m. is_lost-settle_each alive (active_of t) b t ∙ (reconciled_active alive b t m).1 in
    let (same, none_found) = settle_none alive (active_of t') t' still in
    (
      t',
      result_of alive t',
      ap (λ (p : Result Error ReconcileResult × Session Taskstore). p.1) (reconcile-quiet alive t),
      λ b m. reconciled_active alive b t m,
      reconcile-quiet alive t' ∙ ap (λ (s : Taskstore). (ok (result_of alive t'), quiet s)) same,
      none_found,
    )
