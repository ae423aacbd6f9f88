-- ===== src/Worktree/Paths.antt =====
-- The path functions of Go that internal/worktree/worktree.go calls: `filepath.Clean`, `Join` and `Dir`
-- on a system where `/` separates the parts.
use omni_orchestration.Prelude.{Bool, false, not, ◌&&◌, List, [], ◌∷◌, ◌++◌, ◌==◌, if◌then◌else◌}
use omni_orchestration.Runtime.Attach.{Text, is_empty, same_text}

-- The parts between the slashes, with the part that has begun.
unfoldable pub parts_from : Text → Text → List Text
parts_from part [] = part ∷ []
parts_from part (b ∷ s) =
    let rest = parts_from (if b == 47 then [] else part ++ b ∷ []) s in
    if b == 47 then part ∷ rest else rest

abbrev pub dots : Text
dots = 46 ∷ 46 ∷ []

-- `..` after the parts that are kept, the last one first: it takes back a part that is not `..`
-- itself, and is dropped at the root.
abbrev pub step_up : Bool → List Text → List Text
step_up rooted [] = if rooted then [] else dots ∷ []
step_up rooted (p ∷ kept) = if same_text p dots then dots ∷ p ∷ kept else kept

abbrev pub step : Bool → Text → List Text → List Text
step rooted p kept =
    if is_empty p
    then kept
    else if same_text p (46 ∷ [])
    then kept
    else if same_text p dots
    then step_up rooted kept
    else p ∷ kept

unfoldable pub steps : Bool → List Text → List Text → List Text
steps rooted [] kept = kept
steps rooted (p ∷ ps) kept = steps rooted ps (step rooted p kept)

-- The parts, the last one first, with a slash between them, before the text that follows.
unfoldable pub joined : List Text → Text → Text
joined [] after = after
joined (p ∷ []) after = p ++ after
joined (p ∷ q ∷ ps) after = joined (q ∷ ps) (47 ∷ (p ++ after))

abbrev pub is_rooted : Text → Bool
is_rooted [] = false
is_rooted (b ∷ s) = b == 47

abbrev pub or_dot : Text → Text
or_dot [] = 46 ∷ []
or_dot (b ∷ s) = b ∷ s

unfoldable pub clean : Text → Text
unfolding parts_from steps joined
clean s =
    let kept = steps (is_rooted s) (parts_from [] s) [] in
    if is_rooted s then 47 ∷ joined kept [] else or_dot (joined kept [])

unfoldable pub with_slashes : List Text → Text
with_slashes [] = []
with_slashes (p ∷ []) = p
with_slashes (p ∷ q ∷ ps) = p ++ 47 ∷ with_slashes (q ∷ ps)

-- From the first element that is not empty on.
unfoldable pub join : List Text → Text
unfolding clean with_slashes
join [] = []
join (p ∷ ps) = let rest = join ps in if is_empty p then rest else clean (with_slashes (p ∷ ps))

-- What stands up to the last slash, with the slash.
unfoldable pub up_to_slash : Text → Text
up_to_slash [] = []
up_to_slash (b ∷ s) =
    let rest = up_to_slash s in if is_empty rest && not (b == 47) then [] else b ∷ rest

unfoldable pub dir : Text → Text
unfolding clean up_to_slash
dir s = clean (up_to_slash s)
