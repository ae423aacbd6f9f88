-- ===== src/Orchestrator/Format.antt =====
-- The texts that internal/orchestrator/orchestrator.go makes with `fmt.Sprintf`.
use omni_orchestration.Prelude.{
  ℕ, zero, suc, ◌/◌, ◌%◌, ◌≤◌, ◌<◌, ◌≡◌, refl, arith, inl, inr, Bool-cases, String, Bool, true,
  false, ltb, ◌==◌, if◌then◌else◌,
}
use Prim.Native.String.{◌++◌ as append}
use omni_orchestration.Taskstore.{
  Status, pending, running, completed, failed, cancelled, other_status,
}

abbrev pub digit : ℕ → String
digit n =
    if n == 0
    then "0"
    else if n == 1
    then "1"
    else if n == 2
    then "2"
    else if n == 3
    then "3"
    else if n == 4
    then "4"
    else if n == 5
    then "5"
    else if n == 6
    then "6"
    else if n == 7
    then "7"
    else if n == 8
    then "8"
    else "9"

-- `%d`.
unfoldable pub show_digits : ℕ → ℕ → String → String
show_digits zero n rest = rest
show_digits (suc fuel) n rest =
    let longer = show_digits fuel (n / 10) (append (digit (n % 10)) rest) in
    if ltb n 10 then append (digit n) rest else longer

-- Fuel above the number is enough: more of it makes no difference.
show_digits_fuel :
    (j k n : ℕ) (rest : String) → n < j → n < k → show_digits j n rest ≡ show_digits k n rest
unfolding show_digits
show_digits_fuel zero k n rest a b = absurd (omega arith)
show_digits_fuel (suc j) zero n rest a b = absurd (omega arith)
show_digits_fuel (suc j) (suc k) n rest a b = elim (Bool-cases (ltb n 10)) [
  | inl short ↦ rw short refl
  | inr long ↦
      let big : 10 ≤ n = ground arith in
      rw
        (
          long,
          show_digits_fuel j k (n / 10) (append (digit (n % 10)) rest) (omega arith) (omega arith),
        )
        refl
]

unfoldable pub show : ℕ → String
unfolding show_digits
show n = show_digits (suc n) n ""

-- `%v` of a truth value, and `%s` of a status.
abbrev pub show_bool : Bool → String
show_bool true = "true"
show_bool false = "false"

abbrev pub show_status : Status → String
show_status pending = "pending"
show_status running = "running"
show_status completed = "completed"
show_status failed = "failed"
show_status cancelled = "cancelled"
show_status (other_status s) = s

unfoldable pub effect_key : ℕ → ℕ → String → String
unfolding show
effect_key run number decision =
    append "run-"
      (append (show run) (append "-att-" (append (show number) (append "-decision-" decision))))

unfoldable pub attempt_message : ℕ → String → String
unfolding show
attempt_message id what = append "attempt-" (append (show id) (append "-" what))

unfoldable pub worker_name : ℕ → ℕ → String
unfolding show
worker_name task number = append "T" (append (show task) (append "-A" (show number)))
