-- ===== src/Policy/Tests.antt =====
-- Concrete providers and policies for internal/policy/policy.go.
use omni_orchestration.Prelude.{
  String, refl, sym, ◌∙◌, eq_iff, true, some, [], ◌∷◌, IsIn, here, there, arith,
}
use omni_orchestration.Policy.{
  ProviderDecl, Policy, lacks, worktree, check, model_selection, effort_selection, sandbox_required,
  network_access, provider,
}
use omni_orchestration.Policy.Enforce.{IsAllowed, Explains, check_sound, check-Explains}

abbrev worker : ProviderDecl
worker = provider "w" (model_selection ∷ sandbox_required ∷ []) true

abbrev strict : Policy
strict = record {
  require_caps = model_selection ∷ [];
  deny_caps = network_access ∷ [];
  min_fs_scope = worktree;
}

check_sound_example : IsAllowed worker strict
unfolding check
check_sound_example = check_sound worker (some strict) refl

check-Explains_example :
    Explains
      (lacks effort_selection)
      worker
      (record strict { require_caps = effort_selection ∷ [] })
unfolding check
check-Explains_example =
    check-Explains worker (some (record strict { require_caps = effort_selection ∷ [] }))
      (lacks effort_selection) refl

worker-IsAllowed : IsAllowed worker strict
worker-IsAllowed = record {
  has_required = required;
  none_denied = refused;
  sandbox = λ _. refl;
  scope = omega arith;
}
  where
    required : (c : String) → IsIn c strict.require_caps → IsIn c worker.caps
    required c (here e) = here e
    required c (there m) = elim m [ ]

    refused : (c : String) → IsIn c strict.deny_caps → ¬ IsIn c worker.caps
    refused c (here e) (here q) =
        absurd (ground (arith, (eq_iff network_access model_selection).1 (sym e ∙ q)))
    refused c (here e) (there (here q)) =
        absurd (ground (arith, (eq_iff network_access sandbox_required).1 (sym e ∙ q)))
    refused c (here e) (there (there m)) = elim m [ ]
    refused c (there m) n = elim m [ ]
