-- ===== src/Tools/Google/Headers.antt =====
-- The subject line that gmail.ts of runtime/src/tools writes.
use dream_team.Prelude.{String, ◌≡◌, refl, Bool, true, false, not, arith, ◌&&◌}
use dream_team.Tools.Google.Gmail.{is_break, replace_breaks, sanitize_header}

-- No character breaks the line.
abbrev pub one_line : String → Bool
one_line String.[] = true
one_line (String.◌∷◌ c s) = not (is_break c) && one_line s

replace_breaks-one_line : (inside : Bool) (s : String) → one_line (replace_breaks inside s) ≡ true
unfolding replace_breaks
replace_breaks-one_line inside String.[] = refl
replace_breaks-one_line true (String.◌∷◌ c s) =
    ground (arith, replace_breaks-one_line true s, replace_breaks-one_line false s)
replace_breaks-one_line false (String.◌∷◌ c s) =
    ground (arith, replace_breaks-one_line true s, replace_breaks-one_line false s)

replace_breaks-eq_self :
    (inside : Bool) (s : String) → one_line s ≡ true → replace_breaks inside s ≡ s
unfolding replace_breaks
replace_breaks-eq_self inside String.[] h = refl
replace_breaks-eq_self inside (String.◌∷◌ c s) h = ground (arith, replace_breaks-eq_self false s)

-- A sanitized subject is one line, and a subject that is one line is left as it is.
pub sanitize_header-one_line :
    (v : String)
    → (one_line (sanitize_header v) ≡ true) × (one_line v ≡ true → sanitize_header v ≡ v)
unfolding sanitize_header
sanitize_header-one_line v = (replace_breaks-one_line false v, replace_breaks-eq_self false v)
