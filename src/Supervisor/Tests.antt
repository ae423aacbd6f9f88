-- ===== src/Supervisor/Tests.antt =====
-- Concrete observations for internal/supervisor/supervisor.go.
use omni_orchestration.Prelude.{◌≡◌, refl, true, none, some, List, [], ◌∷◌, ◌++◌}
use omni_orchestration.Supervisor.{Round, output, exits, tick, default_config, crashed, observe}
use omni_orchestration.Supervisor.Trace.{OnDiagram, observe-OnDiagram}
use omni_orchestration.Supervisor.Ending.{last_state, observe_exit}

-- Silence past the timeout, then output, then an exit with code 3.
abbrev before : List Round
before =
    record { event = tick 40; delivered = true }
    ∷ record { event = output 41 true; delivered = true }
    ∷ []

abbrev rounds : List Round
rounds = before ++ record { event = exits 42 3; delivered = true } ∷ []

observe-OnDiagram_example : OnDiagram (observe default_config 0 true none rounds)
observe-OnDiagram_example = observe-OnDiagram default_config 0 true none rounds

observe_exit_example : last_state (observe default_config 0 true none rounds) ≡ some crashed
observe_exit_example = observe_exit default_config 0 true before [] 42 3 (refl, (refl, tt))
