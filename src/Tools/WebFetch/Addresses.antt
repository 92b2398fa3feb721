-- ===== src/Tools/WebFetch/Addresses.antt =====
-- The address tests of runtime/src/tools/web-fetch.ts.
use Prim.Native.Char.{code}
use text.Mathlib.Text.{starts_with}
use dream_team.Prelude.{
  has_code_point, ℕ, ◌+◌, ◌-◌, ◌*◌, String, Bool, true, false, ◌&&◌, ◌||◌, Option, none, some, List,
  [], ◌∷◌, str_eq, leb, ◌==◌, codes, if◌then◌else◌,
}

strip_end : String → String
strip_end String.[] = ""
strip_end (String.◌∷◌ c s) =
    let rest = strip_end s in if code c == 93 && str_eq s "" then "" else String.◌∷◌ c rest

-- `host.replace(/^\[|\]$/g, '')`
unfoldable pub strip_brackets : String → String
unfolding strip_end
strip_brackets String.[] = ""
strip_brackets (String.◌∷◌ c s) = if code c == 91 then strip_end s else strip_end (String.◌∷◌ c s)

-- `s.split(';')[0]`
unfoldable pub before_semicolon : String → String
before_semicolon String.[] = ""
before_semicolon (String.◌∷◌ c s) =
    let rest = before_semicolon s in if code c == 59 then "" else String.◌∷◌ c rest

-- `s.slice(s.lastIndexOf(':') + 1)`
unfoldable pub after_last_colon : String → String
after_last_colon String.[] = ""
after_last_colon (String.◌∷◌ c s) =
    let rest = after_last_colon s in
    if has_code_point 58 s then rest else if code c == 58 then s else String.◌∷◌ c s

-- A digit put to the number read so far; NaN is `none`.
push_digit : Option ℕ → ℕ → Option ℕ
push_digit none k = none
push_digit (some n) k = if leb 48 k && leb k 57 then some (10 * n + (k - 48)) else none

-- `ip.split('.').map(Number)` of a text of digits and dots; an empty part counts as 0.
split_octets : Option ℕ → List ℕ → List (Option ℕ)
split_octets now [] = now ∷ []
split_octets now (k ∷ ks) =
    let closed = now ∷ split_octets (some 0) ks in
    let more = split_octets (push_digit now k) ks in if k == 46 then closed else more

unfoldable pub octets : String → List (Option ℕ)
unfolding split_octets push_digit
octets ip = split_octets (some 0) (codes ip)

-- The test on the first two of four numbers.
unfoldable pub is_private_range : ℕ → ℕ → Bool
is_private_range a b =
    a == 0
    || a == 10
    || a == 127
    || (a == 169 && b == 254)
    || (a == 172 && leb 16 b && leb b 31)
    || (a == 192 && b == 168)
    || (a == 100 && leb 64 b && leb b 127)

unfoldable pub is_private_v4 : String → Bool
unfolding octets is_private_range
is_private_v4 ip = elim (octets ip) [
  | some a ∷ some b ∷ some c ∷ some d ∷ [] ↦ is_private_range a b
  | _ ↦ true
]

-- `is_v4` tells whether a text is an IPv4 address.
unfoldable pub is_private_v6 : (is_v4 : String → Bool) → String → Bool
unfolding is_private_v4 after_last_colon
is_private_v6 is_v4 ip =
    if str_eq ip "::1"
      || str_eq ip "::"
      || starts_with ip "fe80"
      || starts_with ip "fc"
      || starts_with ip "fd"
    then true
    else if has_code_point 46 ip && is_v4 (after_last_colon ip)
    then is_private_v4 (after_last_colon ip)
    else false
