-- ===== src/Tracker/Pool.antt =====
-- internal/daemon/tracker.go: the pool of workers under `poll`.
use omni_orchestration.Prelude.{
  ℕ, zero, suc, ◌+◌, ◌≤◌, String, str_eq, ◌≡◌, refl, Bool, true, false, List, [], ◌∷◌, leb, ◌==◌,
  any, length, if◌then◌else◌, arith, Bool-cases, inl, inr,
}
use omni_orchestration.Session.{ok, Session, pure, ◌>>=◌, attempt}
use omni_orchestration.Dag.{get_ready_tasks, Task, Dag}
use omni_orchestration.Dag.Leases.{acquire_path_lease, release_path_leases}
use omni_orchestration.Tracker.{
  Tracker, is_running, is_granted, started, acquire_each, release_each, acquire_paths,
  dispatch_each, poll, or_no_tasks,
}

abbrev pub IsDistinct : List ℕ → Type 0
IsDistinct [] = Unit
IsDistinct (x ∷ xs) = (any (λ r. r == x) xs ≡ false) × IsDistinct xs

-- At most as many tasks run as there are workers, and no task runs twice.
pub record IsPool (t : Tracker) : Type 0 where
  pub bounded : length t.running ≤ t.max_workers
  pub distinct : IsDistinct t.running

acquire_each_total :
    (trim : String → String) (id : ℕ) (ps : List String) (s : Session Dag)
    → (r : Bool × ℕ) × (s' : Session Dag) × (acquire_each trim id ps s ≡ (ok r, s'))
unfolding acquire_each
acquire_each_total trim id [] s = ((true, 0), s, refl)
acquire_each_total trim id (p ∷ ps) s = elim (Bool-cases (str_eq (trim p) "")) [
  | inl blank ↦ let (r, s', q) = acquire_each_total trim id ps s in (r, s', rw blank q)
  | inr path ↦ elim (Bool-cases (is_granted (acquire_path_lease id (trim p) s).0)) [
    | inl granted ↦
        let (r, s', q) = acquire_each_total trim id ps (acquire_path_lease id (trim p) s).1 in
        ((r.0, r.1 + 1), s', rw (path, granted, q) refl)
    | inr refused ↦ ((false, 0), (acquire_path_lease id (trim p) s).1, rw (path, refused) refl)
  ]
]

release_each_total :
    (id n : ℕ) (s : Session Dag) → (s' : Session Dag) × (release_each id n s ≡ (ok tt, s'))
unfolding release_each
release_each_total id zero s = (s, refl)
release_each_total id (suc n) s = release_each_total id n (release_path_leases id s).1

acquire_paths_total :
    (split : String → List String) (trim : String → String) (t : Task) (s : Session Dag)
    → (b : Bool) × (s' : Session Dag) × (acquire_paths split trim t s ≡ (ok b, s'))
unfolding acquire_paths
acquire_paths_total split trim t s =
    let (r, s', q) = acquire_each_total trim t.id (split t.owned_paths) s in
    elim (Bool-cases r.0) [
      | inl all ↦ (true, s', rw (q, all) refl)
      | inr some_left ↦
          let (s'', e) = release_each_total t.id r.1 s' in (false, s'', rw (q, some_left, e) refl)
    ]

started-IsPool :
    (id : ℕ) (t : Tracker)
    → leb t.max_workers (length t.running) ≡ false
    → is_running id t ≡ false
    → IsPool t
    → IsPool (started id t)
started-IsPool id t room fresh p = record { bounded = ground arith; distinct = (fresh, p.distinct) }

dispatch_each-IsPool :
    (split : String → List String) (trim : String → String) (xs : List Task) (t : Tracker)
    (s : Session Dag)
    → IsPool t
    → (t' : Tracker) × ((dispatch_each split trim xs t s).0 ≡ ok t')
      × IsPool t'
      × (t'.max_workers ≡ t.max_workers)
unfolding dispatch_each
dispatch_each-IsPool split trim [] t s p = (t, refl, p, refl)
dispatch_each-IsPool split trim (x ∷ xs) t s p =
    elim (Bool-cases (leb t.max_workers (length t.running))) [
      | inl busy ↦ (t, rw busy refl, p, refl)
      | inr room ↦ elim (Bool-cases (is_running x.id t)) [
        | inl twice ↦
            let (t', q, k, m) = dispatch_each-IsPool split trim xs t s p in
            (t', rw (room, twice) q, k, m)
        | inr fresh ↦
            let (b, s', e) = acquire_paths_total split trim x s in
            elim (Bool-cases b) [
              | inl granted ↦
                  let (t', q, k, m) =
                    dispatch_each-IsPool split trim xs (started x.id t) s'
                      (started-IsPool x.id t room fresh p) in
                  (t', rw (room, fresh, e, granted) q, k, m)
              | inr refused ↦
                  let (t', q, k, m) = dispatch_each-IsPool split trim xs t s' p in
                  (t', rw (room, fresh, e, refused) q, k, m)
            ]
      ]
    ]

poll_open :
    (split : String → List String) (trim : String → String) (t : Tracker) (s : Session Dag)
    → t.closed ≡ false
    → leb t.max_workers (length t.running) ≡ false
    → poll split trim t s
      ≡ dispatch_each split trim (or_no_tasks (get_ready_tasks s).0) t (get_ready_tasks s).1
unfolding poll
poll_open split trim t s open_ room = by_tests t.closed _ open_ room
  where
    by_tests :
        (b c : Bool)
        → b ≡ false
        → c ≡ false
        → (if b then pure t else if c then pure t else (do
          ready_tasks ← attempt get_ready_tasks
          dispatch_each split trim (or_no_tasks ready_tasks) t))
            s
          ≡ dispatch_each split trim (or_no_tasks (get_ready_tasks s).0) t (get_ready_tasks s).1
    by_tests false false e f = refl
    by_tests false true e f = absurd (ground arith)
    by_tests true c e f = absurd (ground arith)

-- Whatever the driver's faults, a poll gives a tracker, with as many workers as before; no more tasks
-- run in it than there are workers, and none runs twice, if that was so before.
pub poll-IsPool :
    (split : String → List String) (trim : String → String) (t : Tracker) (s : Session Dag)
    → IsPool t
    → (t' : Tracker) × ((poll split trim t s).0 ≡ ok t')
      × IsPool t'
      × (t'.max_workers ≡ t.max_workers)
unfolding poll
poll-IsPool split trim t s p = elim (Bool-cases t.closed) [
  | inl shut ↦ (t, rw shut refl, p, refl)
  | inr open_ ↦ elim (Bool-cases (leb t.max_workers (length t.running))) [
    | inl busy ↦ (t, rw (open_, busy) refl, p, refl)
    | inr room ↦
        let (t', q, k, m) =
          dispatch_each-IsPool split trim (or_no_tasks (get_ready_tasks s).0) t
            (get_ready_tasks s).1 p in
        (t', rw (poll_open split trim t s open_ room) q, k, m)
  ]
]
