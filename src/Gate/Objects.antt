-- ===== src/Gate/Objects.antt =====
-- `table[key]` on an object literal used as a dictionary: its own properties, and the ones that
-- every object literal inherits from `Object.prototype`.
use dream_team.Prelude.{
  String, ◌≡◌, Bool, true, false, Option, none, some, List, [], ◌∷◌, arith, str_eq, eq_iff,
  if◌then◌else◌, includes, all, Bool-cases, inl, inr,
}

pub data Property {ℓ} (A : Type ℓ) : Type ℓ where
  missing : Property A
  own : A → Property A
  inherited : Property A

unfoldable pub prototype_names : List String
prototype_names =
    "constructor" ∷ "__defineGetter__" ∷ "__defineSetter__" ∷ "hasOwnProperty" ∷ "__lookupGetter__"
    ∷ "__lookupSetter__" ∷ "isPrototypeOf" ∷ "propertyIsEnumerable" ∷ "toString" ∷ "valueOf"
    ∷ "__proto__" ∷ "toLocaleString" ∷ []

module _ {ℓ} {A : Type ℓ} where
  unfoldable pub lookup : List (String × A) → String → Option A
  lookup [] key = none
  lookup ((k, v) ∷ table) key = if str_eq k key then some v else lookup table key

  unfoldable pub index : List (String × A) → String → Property A
  index table key = elim (lookup table key) [
    | some v ↦ own v
    | none ↦ if includes prototype_names key then inherited else missing
  ]

  -- `Object.prototype.hasOwnProperty.call(table, key)`
  unfoldable pub has_own : List (String × A) → String → Bool
  has_own table key = elim (lookup table key) [ some v ↦ true | none ↦ false ]

  -- What a check of the whole table found holds at every entry that a look-up returns.
  pub lookup-all :
      (p : String → A → Bool) (table : List (String × A)) (key : String) {v : A}
      → all (λ e. p e.0 e.1) table ≡ true
      → lookup table key ≡ some v
      → p key v ≡ true
  unfolding lookup
  lookup-all p [] key h e = cc
  lookup-all p ((k, v) ∷ table) key h e = elim (Bool-cases (str_eq k key)) [
    | inl same ↦ ground (arith, eq_iff k key)
    | inr other ↦ lookup-all p table key (ground arith) (ground arith)
  ]

  pub lookup-index :
      (table : List (String × A)) (key : String) {v : A}
      → index table key ≡ own v
      → lookup table key ≡ some v
  unfolding index
  lookup-index table key e = ground arith

pub includes-all :
    (p : String → Bool) (xs : List String) (s : String)
    → all p xs ≡ true
    → includes xs s ≡ true
    → p s ≡ true
unfolding includes
includes-all p [] s h e = cc
includes-all p (x ∷ xs) s h e = elim (Bool-cases (str_eq x s)) [
  | inl same ↦ ground (arith, eq_iff x s)
  | inr other ↦ includes-all p xs s (ground arith) (ground arith)
]
