-- ===== src/Loop/Client.antt =====
-- runtime/src/model/client.ts: the model client over the provider's SDK, which is a parameter.
use dream_team.Prelude.{ℕ, String, Option, none, some, List, [], ◌∷◌, str_eq, if◌then◌else◌}
use dream_team.Json.{Json}
use dream_team.Effects.{Attempt, returns, throws, then_call, plain_error}
use dream_team.Loop.Types.{
  ContentBlock, text, StopReason, end_turn, pause_turn, LoopMessage, CreateMessageRequest,
  CreateMessageResponse, ModelClient,
}

-- A block of the SDK's message; `other` is one of any other type.
pub data SdkBlock : Type 0 where
  text_block : String → SdkBlock
  tool_use_block : (id name : String) → Json → SdkBlock
  other : (kind : String) → SdkBlock

pub record SdkUsage : Type 0 where
  pub input_tokens : ℕ
  pub output_tokens : ℕ
  pub cache_read_input_tokens : Option ℕ
  pub cache_creation_input_tokens : Option ℕ

pub record SdkMessage : Type 0 where
  pub content : List SdkBlock
  pub stop_reason : Option String
  pub usage : SdkUsage

-- An empty system prompt is left out.
pub record SdkRequest : Type 0 where
  pub model : String
  pub max_tokens : ℕ
  pub system : Option String
  pub messages : List LoopMessage
  pub tools : List String

unfoldable pub narrow_content : List SdkBlock → List ContentBlock
narrow_content [] = []
narrow_content (text_block s ∷ bs) = text s ∷ narrow_content bs
narrow_content (tool_use_block id name input ∷ bs) =
    ContentBlock.tool_use (record { id = id; name = name; input = input }) ∷ narrow_content bs
narrow_content (other kind ∷ bs) = narrow_content bs

unfoldable pub map_stop_reason : Option String → StopReason
map_stop_reason none = end_turn
map_stop_reason (some reason) =
    if str_eq reason "tool_use"
    then StopReason.tool_use
    else if str_eq reason "pause_turn"
    then pause_turn
    else if str_eq reason "max_tokens"
    then StopReason.max_tokens
    else end_turn

unfoldable pub sdk_request : CreateMessageRequest → SdkRequest
sdk_request req = record {
  model = req.model;
  max_tokens = req.max_tokens;
  system = if str_eq req.system "" then none else some req.system;
  messages = req.messages;
  tools = req.tools;
}

unfoldable pub of_sdk : SdkMessage → CreateMessageResponse
of_sdk res = record {
  content = narrow_content res.content;
  stop_reason = map_stop_reason res.stop_reason;
  usage = record {
    input_tokens = res.usage.input_tokens;
    output_tokens = res.usage.output_tokens;
    cache_read_input_tokens = res.usage.cache_read_input_tokens;
    cache_creation_input_tokens = res.usage.cache_creation_input_tokens;
  };
}

-- The SDK's `messages.create` under the user's key
unfoldable pub anthropic_model_client :
    {W : Type 0}
    → (create : String → SdkRequest → W → Attempt SdkMessage × W) → String
    → ModelClient W
anthropic_model_client create api_key = record {
  create_message =
      λ req. then_call (create api_key (sdk_request req)) (λ res w. (returns (of_sdk res), w));
}

unfoldable pub real_model_client : {W : Type 0} → ModelClient W
real_model_client = record {
  create_message = λ req w. (
    throws (
        plain_error
          "realModelClient: not wired. Use anthropicModelClient(apiKey) or inject a fake."),
    w,
  );
}
