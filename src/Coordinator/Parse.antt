-- ===== src/Coordinator/Parse.antt =====
-- What `UnmarshalResponse` accepts.
use omni_orchestration.Prelude.{
  String, str_eq, eq_iff, ◌≡◌, ◌≢◌, refl, sym, Bool, true, false, ◌||◌, Option, some, List, [], ◌∷◌,
  if◌then◌else◌, arith, Bool-cases, Option-cases, inl, inr, ◌⊎◌, IsIn, here, there,
}
use omni_orchestration.Session.{ok, err}
use omni_orchestration.Coordinator.{
  Decision, WakeResponse, malformed_response, normalize_decision, parse_decoded, unmarshal_response,
  start, validate, continue, complete, retry_clean, replace_worker, fail,
}

-- The seven decisions.
abbrev pub decisions : List Decision
decisions = start ∷ validate ∷ continue ∷ complete ∷ retry_clean ∷ replace_worker ∷ fail ∷ []

normalize_decision-IsIn :
    (fold : String → String) (s : String) → IsIn (normalize_decision fold s) decisions
unfolding normalize_decision
normalize_decision-IsIn fold s = elim (Bool-cases (str_eq (fold s) "START")) [
  | inl e ↦ rw e (here refl)
  | inr a ↦ elim (Bool-cases (str_eq (fold s) "VALIDATE")) [
    | inl e ↦ rw (a, e) (there (here refl))
    | inr b ↦ elim (Bool-cases (str_eq (fold s) "CONTINUE")) [
      | inl e ↦ rw (a, b, e) (there (there (here refl)))
      | inr c ↦ elim (Bool-cases (str_eq (fold s) "COMPLETE")) [
        | inl e ↦ rw (a, b, c, e) (there (there (there (here refl))))
        | inr d ↦
            rw (a, b, c, d)
              (last_three (str_eq (fold s) "RETRY_CLEAN" || str_eq (fold s) "RETRY")
                (str_eq (fold s) "REPLACE"))
      ]
    ]
  ]
]
  where
    last_three :
        (x y : Bool)
        → IsIn (if x then retry_clean else if y then replace_worker else fail) decisions
    last_three true y = there (there (there (there (here refl))))
    last_three false true = there (there (there (there (there (here refl)))))
    last_three false false = there (there (there (there (there (there (here refl))))))

-- A response that `UnmarshalResponse` accepts came from text that the JSON decoder accepts, its
-- decision is one of the seven, and it is FAIL only if the text says exactly "FAIL"; reason and
-- instruction are as decoded.
pub unmarshal_response_sound :
    (decode : String → Option WakeResponse) (fold : String → String) (bytes : String)
    (r : WakeResponse)
    → unmarshal_response decode fold bytes ≡ ok r
    → (raw : WakeResponse) × (decode bytes ≡ some raw)
      × (r ≡ record raw { decision = normalize_decision fold raw.decision })
      × IsIn r.decision decisions
      × ((r.decision ≢ fail) ⊎ (raw.decision ≡ fail))
unfolding unmarshal_response
unmarshal_response_sound decode fold bytes r h = elim (Option-cases (decode bytes)) [
  | inl missing ↦ absurd (ground arith)
  | inr (raw, found) ↦
      let parsed : parse_decoded fold (some raw) ≡ ok r = rw (← h, found) refl in
      let made : record raw { decision = normalize_decision fold raw.decision } ≡ r =
        accepted raw r parsed in
      (
        raw,
        found,
        sym made,
        rw (← made) (normalize_decision-IsIn fold raw.decision),
        rw (← made) (not_failed raw r parsed),
      )
]
  where
    accepted :
        (raw r : WakeResponse)
        → parse_decoded fold (some raw) ≡ ok r
        → record raw { decision = normalize_decision fold raw.decision } ≡ r
    accepted raw r e = ground arith

    not_failed :
        (raw r : WakeResponse)
        → parse_decoded fold (some raw) ≡ ok r
        → (normalize_decision fold raw.decision ≢ fail) ⊎ (raw.decision ≡ fail)
    not_failed raw r e = elim (Bool-cases (str_eq (normalize_decision fold raw.decision) fail)) [
      | inl failing ↦ inr ((eq_iff raw.decision fail).0 (ground arith))
      | inr other ↦ inl (λ q. ground (arith, eq_iff (normalize_decision fold raw.decision) fail))
    ]

normalize_decision-fail :
    (fold : String → String) (s : String) → fold s ≡ fail → normalize_decision fold s ≡ fail
unfolding normalize_decision
normalize_decision-fail fold s e = rw e refl

-- A response whose decision reads "FAIL" only after trimming and folding is refused, where the other
-- decisions are accepted in any such form.
pub unmarshal_response_refuses_folded :
    (decode : String → Option WakeResponse) (fold : String → String) (bytes : String)
    (raw : WakeResponse)
    → decode bytes ≡ some raw
    → fold raw.decision ≡ fail
    → raw.decision ≢ fail
    → unmarshal_response decode fold bytes ≡ err malformed_response
unfolding unmarshal_response
unmarshal_response_refuses_folded decode fold bytes raw h e k =
    let folded : normalize_decision fold raw.decision ≡ fail =
      normalize_decision-fail fold raw.decision e in
    rw (h, folded) (ground (arith, eq_iff raw.decision fail))
