-- ===== src/Prelude/Texts.antt =====
-- Text building: concatenation, joining, decimal and hexadecimal digits, trimming.
use Prim.Native.Nat.{ℕ, zero, suc, ◌+◌, ◌-◌, ◌/◌, ◌%◌}
use Prim.Native.Char.{code}
use Prim.Native.String
use Prim.Native.String.{String}
use mathlib.Core.Bool.{Bool, true, false, ◌&&◌, ◌||◌}
use mathlib.Core.List.{List, [], ◌∷◌}
use text.Mathlib.Text.{◌==◌ as str_eq}
use dream_team.Prelude.Lists.{any}
use dream_team.Prelude.Tests.{if◌then◌else◌, leb, ◌==◌}

abbrev pub concat : List String → String
concat [] = ""
concat (s ∷ ss) = String.◌++◌ s (concat ss)

-- `xs.join(sep)`
abbrev pub join : String → List String → String
join sep [] = ""
join sep (s ∷ []) = s
join sep (s ∷ t ∷ ss) = concat (s ∷ sep ∷ join sep (t ∷ ss) ∷ [])

-- The code points of a text.
abbrev pub codes : String → List ℕ
codes String.[] = []
codes (String.◌∷◌ c s) = code c ∷ codes s

digit : ℕ → String
digit d = String.slice "0123456789abcdef" d (d + 1)

digits : ℕ → ℕ → ℕ → String → String
digits zero radix n acc = acc
digits (suc fuel) radix n acc =
    let acc' = String.◌++◌ (digit (n % radix)) acc in
    let more = digits fuel radix (n / radix) acc' in if n / radix == 0 then acc' else more

-- `n.toString(radix)`; the fuel `n + 1` exceeds the number of digits.
unfoldable pub to_radix : ℕ → ℕ → String
unfolding digits digit
to_radix radix n = digits (n + 1) radix n ""

-- A number in a template literal.
unfoldable pub show : ℕ → String
unfolding to_radix
show n = to_radix 10 n

-- `s.padStart(width, '0')`
unfoldable pub pad_zeros : ℕ → String → String
pad_zeros zero s = s
pad_zeros (suc width) s =
    let longer = pad_zeros width (String.◌++◌ "0" s) in
    if leb (suc width) (String.len s) then s else longer

-- JavaScript's white space among the code points.
unfoldable pub is_space : ℕ → Bool
is_space c =
    (leb 9 c && leb c 13)
    || c == 32
    || c == 160
    || c == 5760
    || (leb 8192 c && leb c 8202)
    || c == 8232
    || c == 8233
    || c == 8239
    || c == 8287
    || c == 12288
    || c == 65279

-- `s.trim() === ''`
unfoldable pub is_blank : String → Bool
unfolding is_space
is_blank String.[] = true
is_blank (String.◌∷◌ c s) = is_space (code c) && is_blank s

-- `xs.includes(s)`
unfoldable pub includes : List String → String → Bool
includes [] s = false
includes (x ∷ xs) s = str_eq x s || includes xs s

-- `s.toLowerCase()` of a text whose letters are ASCII
unfoldable pub lower : String → String
lower String.[] = ""
lower (String.◌∷◌ c s) =
    let rest = lower s in
    let k = code c in
    if leb 65 k && leb k 90
    then concat (String.slice "abcdefghijklmnopqrstuvwxyz" (k - 65) (k - 64) ∷ rest ∷ [])
    else String.◌∷◌ c rest

-- `s.endsWith(t)`
unfoldable pub ends_with : String → String → Bool
ends_with String.[] t = str_eq "" t
ends_with (String.◌∷◌ c s) t = str_eq (String.◌∷◌ c s) t || ends_with s t

abbrev pub has_code_point : ℕ → String → Bool
has_code_point k s = any (λ x. x == k) (codes s)

trim_end : String → String
trim_end String.[] = ""
trim_end (String.◌∷◌ c s) =
    let rest = trim_end s in if is_blank (String.◌∷◌ c s) then "" else String.◌∷◌ c rest

-- `s.trim()`
unfoldable pub trim : String → String
unfolding trim_end is_space
trim String.[] = ""
trim (String.◌∷◌ c s) =
    let rest = trim s in if is_space (code c) then rest else trim_end (String.◌∷◌ c s)

split_from : ℕ → String → String → List String
split_from sep cur String.[] = cur ∷ []
split_from sep cur (String.◌∷◌ c s) =
    let closed = cur ∷ split_from sep "" s in
    let longer = split_from sep (String.◌++◌ cur (String.◌∷◌ c "")) s in
    if code c == sep then closed else longer

-- `s.split(sep)` at a separator of one character, given by its code point
unfoldable pub split : ℕ → String → List String
unfolding split_from
split sep s = split_from sep "" s
