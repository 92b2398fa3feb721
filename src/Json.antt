-- ===== src/Json.antt =====
-- The JSON values that the model's tool inputs and the tools' observations carry, and
-- `JSON.stringify` on them. Numbers are natural; an amount of money is a whole number of millionths
-- of a dollar. An absent property is `none`.
use Prim.Native.Char.{Char, code}
use Prim.Native.String
use dream_team.Prelude.{
  not, ℕ, zero, suc, ◌/◌, ◌%◌, String, Bool, true, false, Option, none, some, List, [], ◌∷◌, concat,
  show, to_radix, pad_zeros, if◌then◌else◌, ◌==◌, ltb, str_eq,
}

mutual
  pub data Json : Type 0 where
    null : Json
    bool : Bool → Json
    num : ℕ → Json
    usd : ℕ → Json
    str : String → Json
    arr : Items → Json
    obj : Fields → Json

  pub data Items : Type 0 where
    nil : Items
    cons : Json → Items → Items

  pub data Fields : Type 0 where
    end : Fields
    field : String → Json → Fields → Fields

-- `o[key]` on an object's own properties; a value that is no object has none.
unfoldable pub get_fields : Fields → String → Option Json
get_fields end key = none
get_fields (field k v fs) key = if str_eq k key then some v else get_fields fs key

unfoldable pub get : Json → String → Option Json
unfolding get_fields
get (obj fs) key = get_fields fs key
get _ key = none

-- `{...fs, [key]: v}`: an own property keeps its place.
unfoldable pub put_field : Fields → String → Json → Fields
put_field end key v = field key v end
put_field (field k u fs) key v =
    let rest = put_field fs key v in if str_eq k key then field k v fs else field k u rest

-- `{...fs, ...more}`
unfoldable pub spread : Fields → Fields → Fields
unfolding put_field
spread fs end = fs
spread fs (field k v more) = spread (put_field fs k v) more

abbrev pub items : Items → List Json
items nil = []
items (cons v vs) = v ∷ items vs

-- A millionth-of-a-dollar amount as JavaScript prints the number of dollars.
fraction : ℕ → ℕ → String
fraction zero f = ""
fraction (suc width) f =
    let shorter = fraction width (f / 10) in
    if f % 10 == 0 then shorter else pad_zeros (suc width) (show f)

unfoldable pub show_usd : ℕ → String
unfolding fraction
show_usd n =
    if n % 1000000 == 0
    then show (n / 1000000)
    else concat (show (n / 1000000) ∷ "." ∷ fraction 6 (n % 1000000) ∷ [])

escape_char : Char → String
escape_char c =
    if code c == 34
    then "\\\""
    else if code c == 92
    then "\\\\"
    else if code c == 8
    then "\\b"
    else if code c == 9
    then "\\t"
    else if code c == 10
    then "\\n"
    else if code c == 12
    then "\\f"
    else if code c == 13
    then "\\r"
    else if ltb (code c) 32
    then concat ("\\u" ∷ pad_zeros 4 (to_radix 16 (code c)) ∷ [])
    else String.◌∷◌ c ""

escape : String → String
unfolding escape_char
escape String.[] = ""
escape (String.◌∷◌ c s) = String.◌++◌ (escape_char c) (escape s)

unfoldable pub quote : String → String
unfolding escape
quote s = concat ("\"" ∷ escape s ∷ "\"" ∷ [])

unfoldable mutual
  pub stringify : Json → String
  stringify null = "null"
  stringify (bool true) = "true"
  stringify (bool false) = "false"
  stringify (num n) = show n
  stringify (usd n) = show_usd n
  stringify (str s) = quote s
  stringify (arr vs) = concat ("[" ∷ stringify_items vs ∷ "]" ∷ [])
  stringify (obj fs) = concat ("{" ∷ stringify_fields fs ∷ "}" ∷ [])

  pub stringify_items : Items → String
  stringify_items nil = ""
  stringify_items (cons v nil) = stringify v
  stringify_items (cons v (cons u vs)) =
      concat (stringify v ∷ "," ∷ stringify_items (cons u vs) ∷ [])

  pub stringify_fields : Fields → String
  stringify_fields end = ""
  stringify_fields (field k v end) = concat (quote k ∷ ":" ∷ stringify v ∷ [])
  stringify_fields (field k v (field j u fs)) =
      concat (quote k ∷ ":" ∷ stringify v ∷ "," ∷ stringify_fields (field j u fs) ∷ [])

-- A value in a template literal; `undefined` is `none`. An element of an array that is null is empty
-- there.
unfoldable mutual
  pub to_text : Json → String
  to_text null = "null"
  to_text (bool true) = "true"
  to_text (bool false) = "false"
  to_text (num n) = show n
  to_text (usd n) = show_usd n
  to_text (str s) = s
  to_text (arr vs) = to_text_items vs
  to_text (obj fs) = "[object Object]"

  pub to_text_items : Items → String
  to_text_items nil = ""
  to_text_items (cons null nil) = ""
  to_text_items (cons v nil) = to_text v
  to_text_items (cons null (cons u vs)) = concat ("," ∷ to_text_items (cons u vs) ∷ [])
  to_text_items (cons v (cons u vs)) = concat (to_text v ∷ "," ∷ to_text_items (cons u vs) ∷ [])

abbrev pub optional_text : Option Json → String
optional_text none = "undefined"
optional_text (some v) = to_text v

-- What counts as true in a condition.
abbrev pub truthy : Json → Bool
truthy null = false
truthy (bool b) = b
truthy (num zero) = false
truthy (usd zero) = false
truthy (str s) = not (str_eq s "")
truthy _ = true
