-- ===== src/Supervisor/Trace.antt =====
-- The changes that an observation hands out.
use omni_orchestration.Prelude.{
  ℕ, ◌-◌, ◌≡◌, ◌≢◌, refl, sym, ◌∙◌, Bool, true, false, ◌&&◌, ◌||◌, Option, none, some, List, [],
  ◌∷◌, ◌++◌, leb, if◌then◌else◌, arith, Bool-cases, inl, inr, ◌⊎◌, All, All-append,
}
use omni_orchestration.Supervisor.{
  State, unknown, active, quiescent_candidate, exited, crashed, same_state, is_terminal,
  StateChange, Config, Event, cancels, output, exits, tick, Observer, next_state, change_of, ended,
  target, time_of, stops, changes, after, Round, sent, observe_from, observe,
}

-- The transitions that the package comment draws, those out of UNKNOWN, in which an observation starts,
-- and those to UNKNOWN when the context is done.
abbrev pub is_edge : State → State → Bool
is_edge unknown active = true
is_edge unknown exited = true
is_edge unknown crashed = true
is_edge active quiescent_candidate = true
is_edge active exited = true
is_edge active crashed = true
is_edge active unknown = true
is_edge quiescent_candidate active = true
is_edge quiescent_candidate exited = true
is_edge quiescent_candidate crashed = true
is_edge quiescent_candidate unknown = true
is_edge _ _ = false

abbrev pub OnDiagram : List StateChange → Type 0
OnDiagram cs = All (λ c. is_edge c.from c.to ≡ true) cs

edge_ok :
    (from to : State)
    → (same_state from to || is_terminal from) ≡ false
    → (from ≡ active) ⊎ (to ≢ quiescent_candidate)
    → to ≢ unknown ⊎ (from ≢ unknown)
    → is_edge from to ≡ true
edge_ok from to go h k = ground arith

-- What one round does: no change, or one change from the current state to the next.
data Step (o : Observer) (o' : Observer) : List StateChange → Type 0 where
  stays : o'.current ≡ o.current → Step o o' []
  changes_to :
      (c : StateChange)
      → c.from ≡ o.current
      → c.to ≡ o'.current
      → is_edge c.from c.to ≡ true
      → Step o o' (c ∷ [])

change-Step :
    (now : ℕ) (o o' : Observer) (to : State)
    → o'.current ≡ next_state o.current to
    → (o.current ≡ active) ⊎ (to ≢ quiescent_candidate)
    → Step o o' (change_of now o.current to)
change-Step now o o' to e h = elim (Bool-cases (same_state o.current to || is_terminal o.current)) [
  | inl skip ↦ rw skip (stays (e ∙ rw skip refl))
  | inr go ↦
      rw go (
        changes_to _ refl (sym (e ∙ rw go refl))
          (edge_ok o.current to go h (known o.current to go)))
]
  where
    known :
        (from to : State)
        → (same_state from to || is_terminal from) ≡ false
        → to ≢ unknown ⊎ (from ≢ unknown)
    known from to go = ground arith

round-Step :
    (cfg : Config) (o : Observer) (e : Event)
    → Step o (after cfg o e) (changes (time_of e) (target cfg o e) o.current)
round-Step cfg o (cancels now) = change-Step now o _ unknown refl (inr (λ q. ground arith))
round-Step cfg o (output now true) = change-Step now o _ active refl (inr (λ q. ground arith))
round-Step cfg o (output now false) = stays refl
round-Step cfg o (exits now code) = change-Step now o _ (ended code) refl (inr (λ q. ground arith))
round-Step cfg o (tick now) =
    elim (Bool-cases
      (same_state o.current active && leb cfg.quiescence_timeout (now - o.last_output))) [
        | inl silent ↦ rw silent (change-Step now o _ quiescent_candidate refl (inl (ground arith)))
        | inr busy ↦ rw busy (stays refl)
      ]

Step-OnDiagram : {o o' : Observer} {cs : List StateChange} → Step o o' cs → OnDiagram cs
Step-OnDiagram (stays e) = tt
Step-OnDiagram (changes_to c e f g) = (g, tt)

emitted-OnDiagram : (cfg : Config) (o : Observer) (r : Round) → OnDiagram (sent cfg o r)
emitted-OnDiagram cfg o r = by_delivery r.delivered
  where
    by_delivery :
        (b : Bool)
        → OnDiagram (if b then changes (time_of r.event) (target cfg o r.event) o.current else [])
    by_delivery true = Step-OnDiagram (round-Step cfg o r.event)
    by_delivery false = tt

kept-OnDiagram :
    (b : Bool) (cs : List StateChange) → OnDiagram cs → OnDiagram (if b then [] else cs)
kept-OnDiagram true cs h = tt
kept-OnDiagram false cs h = h

observe_from-OnDiagram :
    (cfg : Config) (o : Observer) (rs : List Round) → OnDiagram (observe_from cfg o rs)
unfolding observe_from
observe_from-OnDiagram cfg o [] = tt
observe_from-OnDiagram cfg o (r ∷ rs) =
    All-append (λ (c : StateChange). is_edge c.from c.to ≡ true) (sent cfg o r) _
      (emitted-OnDiagram cfg o r)
      (kept-OnDiagram (stops r.event) _ (observe_from-OnDiagram cfg (after cfg o r.event) rs))

-- Whatever the runtime does and whichever changes are dropped, every change follows an arrow of the
-- package comment's state diagram, or leads from UNKNOWN to ACTIVE, EXITED or CRASHED, or to UNKNOWN
-- from ACTIVE or QUIESCENT_CANDIDATE; so none leaves EXITED or CRASHED.
pub observe-OnDiagram :
    (cfg : Config) (now : ℕ) (delivered : Bool) (code : Option ℕ) (rs : List Round)
    → OnDiagram (observe cfg now delivered code rs)
unfolding observe
observe-OnDiagram cfg now true none rs = (refl, observe_from-OnDiagram cfg _ rs)
observe-OnDiagram cfg now false none rs = observe_from-OnDiagram cfg _ rs
observe-OnDiagram cfg now true (some code) rs = (ground arith, tt)
observe-OnDiagram cfg now false (some code) rs = tt

-- Each change starts where the one before it ended.
abbrev pub IsConnected : State → List StateChange → Type 0
IsConnected s [] = Unit
IsConnected s (c ∷ cs) = (c.from ≡ s) × IsConnected c.to cs

Step-IsConnected :
    (o o' : Observer) (cs rest : List StateChange)
    → Step o o' cs
    → IsConnected o'.current rest
    → IsConnected o.current (cs ++ rest)
Step-IsConnected o o' [] rest (stays e) k = rw (← e) k
Step-IsConnected o o' (_ ∷ []) rest (changes_to c e f g) k = (e, rw f k)
Step-IsConnected o o' (_ ∷ _ ∷ _) rest st k = elim st [ ]

stopped-IsConnected :
    (b : Bool) (s : State) (cs : List StateChange)
    → IsConnected s cs
    → IsConnected s (if b then [] else cs)
stopped-IsConnected true s cs h = tt
stopped-IsConnected false s cs h = h

observe_from-IsConnected :
    (cfg : Config) (o : Observer) (rs : List Round)
    → All (λ r. r.delivered ≡ true) rs
    → IsConnected o.current (observe_from cfg o rs)
unfolding observe_from
observe_from-IsConnected cfg o [] h = tt
observe_from-IsConnected cfg o (r ∷ rs) h = rw h.0 (
    Step-IsConnected o (after cfg o r.event) _ _ (round-Step cfg o r.event) (
      stopped-IsConnected (stops r.event) _ _
        (observe_from-IsConnected cfg (after cfg o r.event) rs h.1)))

-- If no change is dropped, the first change starts at UNKNOWN and each other one where the change
-- before it ended.
pub observe-IsConnected :
    (cfg : Config) (now : ℕ) (code : Option ℕ) (rs : List Round)
    → All (λ r. r.delivered ≡ true) rs
    → IsConnected unknown (observe cfg now true code rs)
unfolding observe
observe-IsConnected cfg now none rs h = (refl, observe_from-IsConnected cfg _ rs h)
observe-IsConnected cfg now (some code) rs h = (refl, tt)
