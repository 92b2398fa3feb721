-- ===== src/Tests/AppTests.antt =====
-- app/src/lib at concrete inputs.
use dream_team.Prelude.{◌≡◌, refl, true, some, [], ◌∷◌}
use dream_team.Json.{get, get_fields}
use dream_team.Effects.{returns}
use dream_team.App.OauthState.{
  Node, StatePayload, payload_json, parts, cut, state_key, verify_parts, payload_of, payload_in,
  verify_state,
}
use dream_team.App.OauthState.Signed.{IsSigned, verify_state-IsSigned}

abbrev payload : StatePayload
payload = record { s = "acme"; w = "w1"; p = "google_calendar"; n = "n1" }

abbrev node : Node
node = record {
  hmac_sha256 = λ key text. 7 ∷ [];
  timing_safe_equal = λ a b. true;
  from_hex = λ s. 0 ∷ [];
  to_utf8 = λ s. 1 ∷ [];
  from_utf8 = λ bytes. "{}";
  to_base64url = λ bytes. "eA";
  from_base64url = λ s. returns (7 ∷ []);
  stringify = λ v. "{}";
  parse = λ s. returns (payload_json payload);
}

accepted : verify_state node (some "00") "eA.eA" ≡ returns (some payload)
unfolding verify_state parts cut state_key verify_parts payload_of payload_in get get_fields
accepted = refl

verify_state-IsSigned_example : IsSigned node (some "00") "eA.eA" payload
verify_state-IsSigned_example = verify_state-IsSigned node (some "00") "eA.eA" payload accepted
