-- ===== src/Policy.antt =====
-- internal/policy/policy.go: capability declarations and the check before a worker is dispatched.
pub mod Enforce
mod Tests
use omni_orchestration.Prelude.{
  ℕ, String, str_eq, Bool, true, false, not, ◌&&◌, Option, none, some, List, [], ◌∷◌, leb, any,
  if◌then◌else◌,
}
use omni_orchestration.Session.{Result, ok, err}

-- A capability is any text; the four constants are names of it.
abbrev pub Capability : Type 0
Capability = String

abbrev pub model_selection : Capability
model_selection = "model_selection"

abbrev pub effort_selection : Capability
effort_selection = "effort_selection"

abbrev pub sandbox_required : Capability
sandbox_required = "sandbox_required"

abbrev pub network_access : Capability
network_access = "network_access"

-- `FileSystemScope` is a text too; `other` is a text that is none of the constants.
pub data FileSystemScope : Type 0 where
  no_files worktree full : FileSystemScope
  other : String → FileSystemScope

pub record ProviderDecl : Type 0 where
  pub name : String
  pub caps : List Capability
  pub fs_scope : FileSystemScope
  pub sandboxed : Bool

unfoldable pub has : Capability → List Capability → Bool
has c [] = false
has c (x ∷ xs) = if str_eq x c then true else has c xs

pub record Policy : Type 0 where
  pub require_caps : List Capability
  pub deny_caps : List Capability
  pub min_fs_scope : FileSystemScope

abbrev pub default_policy : Policy
default_policy = record { require_caps = []; deny_caps = []; min_fs_scope = worktree }

-- The map of `fsScopeSatisfies`: a text that it lacks reads 0.
abbrev pub scope_order : FileSystemScope → ℕ
scope_order no_files = 0
scope_order worktree = 1
scope_order full = 2
scope_order (other _) = 0

abbrev pub fs_scope_satisfies : FileSystemScope → FileSystemScope → Bool
fs_scope_satisfies actual minimum = leb (scope_order minimum) (scope_order actual)

pub data Violation : Type 0 where
  lacks : Capability → Violation
  denied : Capability → Violation
  not_sandboxed scope_too_low unknown_provider : Violation

-- The first required capability that the provider lacks, the first denied one that it has.
unfoldable pub first_lacking : List Capability → List Capability → Option Capability
unfolding has
first_lacking [] caps = none
first_lacking (c ∷ cs) caps = if has c caps then first_lacking cs caps else some c

unfoldable pub first_denied : List Capability → List Capability → Option Capability
unfolding has
first_denied [] caps = none
first_denied (c ∷ cs) caps = if has c caps then some c else first_denied cs caps

-- The two gates behind the capability loops.
unfoldable pub check_gates : ProviderDecl → FileSystemScope → Result Violation (Unit {0})
unfolding has
check_gates p minimum =
    if has sandbox_required p.caps && not p.sandboxed
    then err not_sandboxed
    else if fs_scope_satisfies p.fs_scope minimum
    then ok tt
    else err scope_too_low

unfoldable pub check_denied :
    ProviderDecl → Policy → Option Capability → Result Violation (Unit {0})
unfolding check_gates
check_denied p pol (some c) = err (denied c)
check_denied p pol none = check_gates p pol.min_fs_scope

unfoldable pub check_required :
    ProviderDecl → Policy → Option Capability → Result Violation (Unit {0})
unfolding check_denied first_denied
check_required p pol (some c) = err (lacks c)
check_required p pol none = check_denied p pol (first_denied pol.deny_caps p.caps)

abbrev pub policy_or_default : Option Policy → Policy
policy_or_default none = default_policy
policy_or_default (some pol) = pol

unfoldable pub check : ProviderDecl → Option Policy → Result Violation (Unit {0})
unfolding check_required first_lacking
check p pol =
    let active = policy_or_default pol in
    check_required p active (first_lacking active.require_caps p.caps)

-- The registry: the declarations by name, and the active policy (`nil` is none).
pub record Registry : Type 0 where
  pub providers : List ProviderDecl
  pub policy : Option Policy

abbrev pub provider : String → List Capability → Bool → ProviderDecl
provider name caps sandboxed = record {
  name = name;
  caps = caps;
  fs_scope = worktree;
  sandboxed = sandboxed;
}

abbrev pub default_providers : List ProviderDecl
default_providers =
    provider "codex" (model_selection ∷ []) false
    ∷ provider "claude" (model_selection ∷ effort_selection ∷ []) false
    ∷ provider "agy" (model_selection ∷ effort_selection ∷ []) false
    ∷ provider "reasonix" (model_selection ∷ []) false
    ∷ provider "sandboxed-claude" (model_selection ∷ effort_selection ∷ network_access ∷ []) true
    ∷ []

abbrev pub new_registry : Registry
new_registry = record { providers = default_providers; policy = some default_policy }

unfoldable pub get_provider : String → List ProviderDecl → Option ProviderDecl
get_provider name [] = none
get_provider name (p ∷ ps) = if str_eq p.name name then some p else get_provider name ps

abbrev pub set_policy : Option Policy → Registry → Registry
set_policy pol r = record r { policy = pol }

abbrev pub check_found : Option Policy → Option ProviderDecl → Result Violation (Unit {0})
check_found pol none = err unknown_provider
check_found pol (some p) = check p pol

unfoldable pub check_provider : Registry → String → Result Violation (Unit {0})
unfolding check get_provider
check_provider r name = check_found r.policy (get_provider name r.providers)
