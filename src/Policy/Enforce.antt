-- ===== src/Policy/Enforce.antt =====
-- internal/policy/policy.go: `Check` and the gates of a policy.
use omni_orchestration.Prelude.{
  ◌≤◌, ◌<◌, String, str_eq, eq_iff, ◌≡◌, refl, sym, true, false, Option, none, some, List, [], ◌∷◌,
  arith, Bool-cases, Option-cases, inl, inr, IsIn, here, there, leb→le,
}
use omni_orchestration.Session.{Result, ok, err}
use omni_orchestration.Policy.{
  Capability, ProviderDecl, Policy, Registry, has, first_lacking, first_denied, check_gates,
  check_denied, check_required, check, check_provider, get_provider, policy_or_default, scope_order,
  sandbox_required, Violation, unknown_provider, lacks, denied, not_sandboxed, scope_too_low,
  FileSystemScope,
}

has-IsIn : (c : Capability) (cs : List Capability) → has c cs ≡ true → IsIn c cs
unfolding has
has-IsIn c [] h = absurd (ground arith)
has-IsIn c (x ∷ cs) h = elim (Bool-cases (str_eq x c)) [
  | inl same ↦ here (sym ((eq_iff x c).0 same))
  | inr other ↦ there (has-IsIn c cs (ground arith))
]

IsIn-has : (c : Capability) (cs : List Capability) → IsIn c cs → has c cs ≡ true
unfolding has
IsIn-has c [] m = elim m [ ]
IsIn-has c (x ∷ cs) (here e) = ground (arith, eq_iff x c)
IsIn-has c (x ∷ cs) (there m) = ground (arith, IsIn-has c cs m)

not-IsIn : (c : Capability) (cs : List Capability) → has c cs ≡ false → ¬ IsIn c cs
not-IsIn c cs h m = absurd (ground (arith, IsIn-has c cs m))

first_lacking-none :
    (rs caps : List Capability)
    → first_lacking rs caps ≡ none
    → (c : Capability) → IsIn c rs
    → IsIn c caps
unfolding first_lacking
first_lacking-none [] caps h c m = elim m [ ]
first_lacking-none (r ∷ rs) caps h c (here e) = rw e (has-IsIn r caps (ground arith))
first_lacking-none (r ∷ rs) caps h c (there m) = first_lacking-none rs caps (ground arith) c m

first_lacking-some :
    (rs caps : List Capability) (c : Capability)
    → first_lacking rs caps ≡ some c
    → IsIn c rs × (¬ IsIn c caps)
unfolding first_lacking
first_lacking-some [] caps c h = absurd (ground arith)
first_lacking-some (r ∷ rs) caps c h = elim (Bool-cases (has r caps)) [
  | inl held ↦ let (m, n) = first_lacking-some rs caps c (ground arith) in (there m, n)
  | inr missing ↦
      let same : r ≡ c = ground arith in (here (sym same), rw (← same) (not-IsIn r caps missing))
]

first_denied-none :
    (ds caps : List Capability)
    → first_denied ds caps ≡ none
    → (c : Capability) → IsIn c ds
    → ¬ IsIn c caps
unfolding first_denied
first_denied-none [] caps h c m = elim m [ ]
first_denied-none (d ∷ ds) caps h c (here e) = rw e (not-IsIn d caps (ground arith))
first_denied-none (d ∷ ds) caps h c (there m) = first_denied-none ds caps (ground arith) c m

first_denied-some :
    (ds caps : List Capability) (c : Capability)
    → first_denied ds caps ≡ some c
    → IsIn c ds × IsIn c caps
unfolding first_denied
first_denied-some [] caps c h = absurd (ground arith)
first_denied-some (d ∷ ds) caps c h = elim (Bool-cases (has d caps)) [
  | inl held ↦
      let same : d ≡ c = ground arith in (here (sym same), rw (← same) (has-IsIn d caps held))
  | inr missing ↦ let (m, n) = first_denied-some ds caps c (ground arith) in (there m, n)
]

-- What a policy asks of a provider.
pub record IsAllowed (p : ProviderDecl) (pol : Policy) : Type 0 where
  pub has_required : (c : Capability) → IsIn c pol.require_caps → IsIn c p.caps
  pub none_denied : (c : Capability) → IsIn c pol.deny_caps → ¬ IsIn c p.caps
  pub sandbox : IsIn sandbox_required p.caps → p.sandboxed ≡ true
  pub scope : scope_order pol.min_fs_scope ≤ scope_order p.fs_scope

-- The reason that an error names.
abbrev pub Explains : Violation → ProviderDecl → Policy → Type 0
Explains (lacks c) p pol = IsIn c pol.require_caps × (¬ IsIn c p.caps)
Explains (denied c) p pol = IsIn c pol.deny_caps × IsIn c p.caps
Explains not_sandboxed p pol = IsIn sandbox_required p.caps × (p.sandboxed ≡ false)
Explains scope_too_low p pol = scope_order p.fs_scope < scope_order pol.min_fs_scope
Explains unknown_provider p pol = ⊥

gates_ok :
    (p : ProviderDecl) (minimum : FileSystemScope)
    → check_gates p minimum ≡ ok tt
    → (IsIn sandbox_required p.caps → p.sandboxed ≡ true)
      × (scope_order minimum ≤ scope_order p.fs_scope)
unfolding check_gates
gates_ok p minimum h = (
  λ m. ground (arith, IsIn-has sandbox_required p.caps m),
  leb→le (scope_order minimum) (scope_order p.fs_scope) (ground arith),
)

gates_err :
    (p : ProviderDecl) (pol : Policy) (v : Violation)
    → check_gates p pol.min_fs_scope ≡ err v
    → Explains v p pol
unfolding check_gates
gates_err p pol (lacks c) h = absurd (ground arith)
gates_err p pol (denied c) h = absurd (ground arith)
gates_err p pol not_sandboxed h = (has-IsIn sandbox_required p.caps (ground arith), ground arith)
gates_err p pol scope_too_low h = ground arith
gates_err p pol unknown_provider h = absurd (ground arith)

module _ (p : ProviderDecl) (pol : Option Policy) where
  -- A provider that passes the check meets the active policy: it has every required capability and no
  -- denied one, it is sandboxed if it asks for that, and its scope is at least the minimum.
  pub check_sound : check p pol ≡ ok tt → IsAllowed p (policy_or_default pol)
  unfolding check check_required check_denied
  check_sound h =
      let active = policy_or_default pol in
      let lacking : first_lacking active.require_caps p.caps ≡ none = ground arith in
      let refused : first_denied active.deny_caps p.caps ≡ none = ground arith in
      let gates : check_gates p active.min_fs_scope ≡ ok tt = ground arith in
      let (sandbox, scope) = gates_ok p active.min_fs_scope gates in
      record {
        has_required = first_lacking-none active.require_caps p.caps lacking;
        none_denied = first_denied-none active.deny_caps p.caps refused;
        sandbox = sandbox;
        scope = scope;
      }

  -- A refusal names a reason that holds: a required capability that the provider lacks, a denied one
  -- that it has, a missing sandbox that it asks for, or a scope below the minimum.
  pub check-Explains : (v : Violation) → check p pol ≡ err v → Explains v p (policy_or_default pol)
  unfolding check check_required check_denied
  check-Explains v h =
      let active = policy_or_default pol in
      elim (Option-cases (first_lacking active.require_caps p.caps)) [
        | inr (c, found) ↦
            let why : lacks c ≡ v = ground arith in
            rw (← why) (first_lacking-some active.require_caps p.caps c found)
        | inl lacking ↦ elim (Option-cases (first_denied active.deny_caps p.caps)) [
          | inr (c, found) ↦
              let why : denied c ≡ v = ground arith in
              rw (← why) (first_denied-some active.deny_caps p.caps c found)
          | inl refused ↦
              let gates : check_gates p active.min_fs_scope ≡ err v = ground arith in
              gates_err p active v gates
        ]
      ]

allowed_unexplained :
    (p : ProviderDecl) (pol : Policy) (v : Violation) → IsAllowed p pol → Explains v p pol → ⊥
allowed_unexplained p pol (lacks c) a (m, n) = n (a.has_required c m)
allowed_unexplained p pol (denied c) a (m, n) = a.none_denied c m n
allowed_unexplained p pol not_sandboxed a (m, n) = absurd (ground (arith, a.sandbox m))
allowed_unexplained p pol scope_too_low a h = omega (arith, a.scope)
allowed_unexplained p pol unknown_provider a h = h

-- A provider that meets the active policy passes the check.
pub check_complete :
    (p : ProviderDecl) (pol : Option Policy)
    → IsAllowed p (policy_or_default pol)
    → check p pol ≡ ok tt
check_complete p pol a = by_result (check p pol) refl
  where
    by_result : (r : Result Violation (Unit {0})) → check p pol ≡ r → check p pol ≡ ok tt
    by_result (ok _) e = e
    by_result (err v) e =
        absurd (allowed_unexplained p (policy_or_default pol) v a (check-Explains p pol v e))

get_provider-name :
    (name : String) (ps : List ProviderDecl) (p : ProviderDecl)
    → get_provider name ps ≡ some p
    → IsIn p ps × (p.name ≡ name)
unfolding get_provider
get_provider-name name [] p h = absurd (ground arith)
get_provider-name name (x ∷ ps) p h = elim (Bool-cases (str_eq x.name name)) [
  | inl hit ↦
      let same : x ≡ p = ground arith in (here (sym same), rw (← same) ((eq_iff x.name name).0 hit))
  | inr miss ↦ let (m, e) = get_provider-name name ps p (ground arith) in (there m, e)
]

-- A name that passes `CheckProvider` is the name of a registered provider, and that provider meets the
-- registry's active policy.
pub check_provider_sound :
    (r : Registry) (name : String)
    → check_provider r name ≡ ok tt
    → (p : ProviderDecl) × IsIn p r.providers
      × (p.name ≡ name)
      × IsAllowed p (policy_or_default r.policy)
unfolding check_provider
check_provider_sound r name h = elim (Option-cases (get_provider name r.providers)) [
  | inl missing ↦ absurd (ground arith)
  | inr (p, found) ↦
      let (m, e) = get_provider-name name r.providers p found in
      let passed : check p r.policy ≡ ok tt = ground arith in
      (p, m, e, check_sound p r.policy passed)
]
