-- ===== src/App/OauthState/Signed.antt =====
-- What a `state` that app/src/lib/connectors/oauthState.ts accepts is.
use Prim.Native.Char.{Char}
use Prim.Native.String
use Prim.Native.String.append
use dream_team.Prelude.{
  ℕ, String, ◌≡◌, ap, ◌∙◌, sym, inl, inr, true, ◌&&◌, ◌||◌, Option, none, some, List, length,
  str_eq, eq_iff, ◌==◌, arith, Option-cases, Bool-cases,
}
use dream_team.Json.{Json, str, get}
use dream_team.Effects.{returns}
use dream_team.Effects.Outcome.{attempt-cases}
use dream_team.App.OauthState.{
  Node, StatePayload, payload_in, cut, parts, state_key, signature_of, payload_of, verify_parts,
  verify_state,
}

-- The four texts of a payload stand in the object.
pub record Carries (v : Json) (p : StatePayload) : Type 0 where
  pub slug : get v "s" ≡ some (str p.s)
  pub workspace : get v "w" ≡ some (str p.w)
  pub provider : get v "p" ≡ some (str p.p)
  pub nonce : get v "n" ≡ some (str p.n)

module _ (node : Node) (env : Option String) where
  -- A body and its signature, with a dot between them, and what the body says.
  pub record IsSigned (raw : String) (payload : StatePayload) : Type 0 where
    pub body : String
    pub sig : String
    pub whole : raw ≡ String.◌++◌ body (String.◌++◌ "." sig)
    pub key : List ℕ
    pub own_key : state_key node env ≡ returns key
    pub actual : List ℕ
    pub decoded : node.from_base64url sig ≡ returns actual
    pub same_length : (length actual == length (signature_of node key body)) ≡ true
    pub genuine : node.timing_safe_equal actual (signature_of node key body) ≡ true
    pub bytes : List ℕ
    pub body_bytes : node.from_base64url body ≡ returns bytes
    pub value : Json
    pub parsed : node.parse (node.from_utf8 bytes) ≡ returns value
    pub carries : Carries value payload

append_nil : (t : String) → String.◌++◌ "" t ≡ t
append_nil t = λ i. append.nil t i

append_cons :
    (c : Char) (s t : String) → String.◌++◌ (String.◌∷◌ c s) t ≡ String.◌∷◌ c (String.◌++◌ s t)
append_cons c s t = λ i. append.cons c s t i

-- The two parts with the dot put back.
abbrev glued : Option (String × String) → String
glued none = ""
glued (some (body, sig)) = String.◌++◌ body (String.◌++◌ "." sig)

cut-whole :
    (raw body sig : String)
    → cut raw ≡ some (body, sig)
    → raw ≡ String.◌++◌ body (String.◌++◌ "." sig)
unfolding cut
cut-whole String.[] body sig e = cc
cut-whole (String.◌∷◌ c text) body sig e = elim (Bool-cases (str_eq (String.◌∷◌ c "") ".")) [
  | inl dot ↦
      let e₁ = rw (dot, cut) at e in
      let same : String.◌∷◌ c "" ≡ "." = (eq_iff (String.◌∷◌ c "") ".").0 dot in
      sym (append_cons c "" text ∙ ap (λ x. String.◌∷◌ c x) (append_nil text))
      ∙ ap (λ x. String.◌++◌ x text) same
      ∙ sym (append_nil (String.◌++◌ "." text))
      ∙ ap glued e₁
  | inr other ↦
      let e₁ = rw (other, cut) at e in
      elim (Option-cases (cut text)) [
        | inl none' ↦ absurd (let e₂ = rw none' at e₁ in cc)
        | inr ((b, t), later) ↦
            let e₂ = rw later at e₁ in
            let ih = cut-whole text b t later in
            ap (λ x. String.◌∷◌ c x) ih ∙ sym (append_cons c b (String.◌++◌ "." t)) ∙ ap glued e₂
      ]
]

parts-whole :
    (raw body sig : String)
    → parts raw ≡ some (body, sig)
    → raw ≡ String.◌++◌ body (String.◌++◌ "." sig)
unfolding parts
parts-whole raw body sig e = elim (Option-cases (cut raw)) [
  | inl uncut ↦ absurd (cc (rw (uncut, parts) at e))
  | inr ((b, t), found) ↦
      let e₁ = rw (found, parts) at e in
      elim (Bool-cases (str_eq b "" || str_eq t "")) [
        | inl empty ↦ absurd (let e₂ = rw empty at e₁ in cc)
        | inr full ↦ let e₂ = rw full at e₁ in cut-whole raw body sig (found ∙ e₂)
      ]
]

payload_in-Carries : (v : Json) (p : StatePayload) → payload_in v ≡ some p → Carries v p
unfolding payload_in
payload_in-Carries v p e = record {
  slug = ground arith;
  workspace = ground arith;
  provider = ground arith;
  nonce = ground arith;
}

module _ (node : Node) where
  payload_of-Carries :
      (body : String) (p : StatePayload)
      → payload_of node body ≡ some p
      → (bytes : List ℕ) × (v : Json) × (node.from_base64url body ≡ returns bytes)
        × (node.parse (node.from_utf8 bytes) ≡ returns v)
        × Carries v p
  unfolding payload_of
  payload_of-Carries body p e = elim (attempt-cases (node.from_base64url body)) [
    | inr (x, bad) ↦ absurd (let e₁ = rw (bad, payload_of) at e in cc)
    | inl (bytes, good) ↦
        let e₁ = rw (good, payload_of) at e in
        elim (attempt-cases (node.parse (node.from_utf8 bytes))) [
          | inr (x, bad) ↦ absurd (let e₂ = rw bad at e₁ in cc)
          | inl (v, parsed) ↦ (bytes, v, good, parsed, payload_in-Carries v p (rw parsed at e₁))
        ]
  ]

  -- A `state` is accepted only as it was signed: it is a body and a signature with a dot between them,
  -- the signature decodes to bytes that the constant-time comparison takes for the HMAC of this body
  -- under the server's own key, and the body decodes to an object that holds the four texts of the
  -- payload.
  pub verify_state-IsSigned :
      (env : Option String) (raw : String) (payload : StatePayload)
      → verify_state node env raw ≡ returns (some payload)
      → IsSigned node env raw payload
  unfolding verify_state verify_parts
  verify_state-IsSigned env raw payload e = elim (Option-cases (parts raw)) [
    | inl none' ↦ absurd (let e₁ = rw (none', verify_state) at e in cc)
    | inr ((body, sig), found) ↦
        let e₁ = rw (found, verify_state) at e in
        elim (attempt-cases (state_key node env)) [
          | inr (x, bad) ↦ absurd (let e₂ = rw bad at e₁ in cc)
          | inl (key, own) ↦
              let e₂ : verify_parts node key body sig ≡ some payload = cc (rw own at e₁) in
              elim (attempt-cases (node.from_base64url sig)) [
                | inr (x, bad) ↦ absurd (let e₃ = rw (bad, verify_parts) at e₂ in cc)
                | inl (actual, decoded) ↦
                    let e₃ = rw (decoded, verify_parts) at e₂ in
                    elim (Bool-cases (
                      length actual == length (signature_of node key body)
                      && node.timing_safe_equal actual (signature_of node key body))) [
                        | inr forged ↦ absurd (let e₄ = rw forged at e₃ in cc)
                        | inl both ↦
                            let (bytes, value, good, parsed, carries) =
                              payload_of-Carries body payload (rw both at e₃) in
                            record {
                              body = body;
                              sig = sig;
                              whole = parts-whole raw body sig found;
                              key = key;
                              own_key = own;
                              actual = actual;
                              decoded = decoded;
                              same_length = ground arith;
                              genuine = ground arith;
                              bytes = bytes;
                              body_bytes = good;
                              value = value;
                              parsed = parsed;
                              carries = carries;
                            }
                      ]
              ]
        ]
  ]
