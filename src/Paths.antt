-- ===== src/Paths.antt =====
-- The functions of `node:path` that the runtime calls, for POSIX paths: the separator is "/", a path
-- is absolute if it begins with one, and the paths resolved against are absolute.
pub mod Below
use Prim.Native.Char.{Char, code}
use Prim.Native.String
use Prim.Native.String.{String}
use mathlib.Core.List.{tail, reverse}
use text.Mathlib.Text.{starts_with}
use dream_team.Prelude.{Bool, ◌||◌, List, [], ◌∷◌, ◌++◌, concat, join, str_eq, ◌==◌, if◌then◌else◌}

abbrev push : String → Char → String
push s c = String.◌++◌ s (String.◌∷◌ c "")

-- `path.split('/')`
split_from : String → String → List String
split_from cur String.[] = cur ∷ []
split_from cur (String.◌∷◌ c s) =
    let closed = cur ∷ split_from "" s in
    let longer = split_from (push cur c) s in if code c == 47 then closed else longer

-- One segment of a path put on the segments before it, the last one at the head.
enter : List String → String → List String
enter stack part =
    if str_eq part "" || str_eq part "."
    then stack
    else if str_eq part ".."
    then tail stack
    else part ∷ stack

enter_all : List String → List String → List String
enter_all stack [] = stack
enter_all stack (part ∷ parts) = enter_all (enter stack part) parts

-- The segments of an absolute path, the last one at the head, with ".", ".." and "" resolved.
unfoldable pub walk : List String → String → List String
unfolding split_from enter enter_all
walk base path = enter_all base (split_from "" path)

unfoldable pub is_absolute : String → Bool
is_absolute path = starts_with path "/"

-- The absolute path of segments that stand with the last one at the head.
unfoldable pub path_of : List String → String
path_of stack = concat ("/" ∷ join "/" (reverse stack) ∷ [])

-- The segments of `resolve(base, path)`.
unfoldable pub resolve : String → String → List String
unfolding walk is_absolute
resolve base path = if is_absolute path then walk [] path else walk (walk [] base) path

up : List String → List String
up [] = []
up (s ∷ ss) = ".." ∷ up ss

relative_segments : List String → List String → List String
unfolding up
relative_segments [] to = to
relative_segments (s ∷ from) [] = up (s ∷ from)
relative_segments (s ∷ from) (t ∷ to) =
    let below = relative_segments from to in if str_eq s t then below else up (s ∷ from) ++ t ∷ to

-- `relative(from, to)`
unfoldable pub relative : String → String → String
unfolding relative_segments walk
relative from to = join "/" (relative_segments (reverse (walk [] from)) (reverse (walk [] to)))

-- `dirname(path)` of an absolute path without "." and ".." segments
unfoldable pub dirname : String → String
unfolding walk path_of
dirname path = path_of (tail (walk [] path))

last_named : List String → String
last_named [] = ""
last_named (s ∷ ss) = let later = last_named ss in if str_eq later "" then s else later

-- `basename(path)`: the last segment that is not empty
unfoldable pub basename : String → String
unfolding split_from last_named
basename path = last_named (split_from "" path)
