-- ===== src/Tools/Plan.antt =====
-- runtime/src/tools/plan.ts: the set_plan tool. A step's id is a natural number.
pub mod Valid
use dream_team.Prelude.{
  ℕ, suc, ◌+◌, String, Bool, true, false, not, ◌||◌, Option, none, some, List, [], ◌∷◌, ◌++◌,
  concat, join, show, length, keep, any, map, is_blank, ◌==◌, str_eq, if◌then◌else◌,
}
use dream_team.Json.{
  Json, str, num, arr, obj, Items, nil, cons, Fields, end, field, get, optional_text,
}
use dream_team.Gate.Types.{plan, t0}
use dream_team.Effects.{pure}
use dream_team.Tools.Types.{ToolDef, ToolObservation, fail, succeed}

pub data PlanStepStatus : Type 0 where
  pending in_progress done failed skipped : PlanStepStatus

abbrev pub status_name : PlanStepStatus → String
status_name pending = "pending"
status_name in_progress = "in_progress"
status_name done = "done"
status_name failed = "failed"
status_name skipped = "skipped"

-- The status of a text in `STATUSES`.
unfoldable pub status_of : String → Option PlanStepStatus
status_of s =
    if str_eq s "pending"
    then some pending
    else if str_eq s "in_progress"
    then some in_progress
    else if str_eq s "done"
    then some done
    else if str_eq s "failed"
    then some failed
    else if str_eq s "skipped"
    then some skipped
    else none

pub record PlanStep : Type 0 where
  pub id : ℕ
  pub description : String
  pub tool : Option String
  pub status : PlanStepStatus

pub record Plan : Type 0 where
  pub goal : String
  pub steps : List PlanStep

pub data Validated (A : Type 0) : Type 0 where
  valid : A → Validated A
  invalid : (reason : String) → Validated A

infixl 5 ◌>>=◌
abbrev pub ◌>>=◌ : {A B : Type 0} → Validated A → (A → Validated B) → Validated B
valid a >>= f = f a
invalid reason >>= f = invalid reason

abbrev pub member : ℕ → List ℕ → Bool
member x xs = any (λ y. y == x) xs

numeric_id : ℕ → Option Json → Validated ℕ
numeric_id i (some (num n)) = valid n
numeric_id i _ = invalid (concat ("step " ∷ show i ∷ " has no numeric id" ∷ []))

new_id : ℕ → List ℕ → Validated ℕ
new_id id seen =
    if member id seen then invalid (concat ("duplicate step id " ∷ show id ∷ [])) else valid id

step_description : ℕ → Option Json → Validated String
step_description id (some (str s)) =
    if is_blank s
    then invalid (concat ("step " ∷ show id ∷ " has no description" ∷ []))
    else valid s
step_description id _ = invalid (concat ("step " ∷ show id ∷ " has no description" ∷ []))

invalid_status : {A : Type 0} → ℕ → Option Json → Validated A
invalid_status id given =
    invalid (concat ("step " ∷ show id ∷ " has invalid status '" ∷ optional_text given ∷ "'" ∷ []))

step_status : ℕ → Option Json → Validated PlanStepStatus
unfolding invalid_status
step_status id (some (str s)) = elim (status_of s) [
  | some status ↦ valid status
  | none ↦ invalid_status id (some (str s))
]
step_status id given = invalid_status id given

-- An empty name counts as no tool.
step_tool : ℕ → Option Json → Validated (Option String)
step_tool id none = valid none
step_tool id (some (str s)) = valid (if str_eq s "" then none else some s)
step_tool id _ = invalid (concat ("step " ∷ show id ∷ " tool must be a string" ∷ []))

-- The body of the loop over the steps.
unfoldable pub validate_step : ℕ → Json → List ℕ → Validated PlanStep
unfolding numeric_id new_id step_description step_status step_tool
validate_step i s seen = do
  given ← numeric_id i (get s "id")
  id ← new_id given seen
  description ← step_description id (get s "description")
  status ← step_status id (get s "status")
  tool ← step_tool id (get s "tool")
  valid (record { id = id; description = description; tool = tool; status = status })

unfoldable pub validate_steps : ℕ → Items → List ℕ → List PlanStep → Validated (List PlanStep)
validate_steps i nil seen steps = valid steps
validate_steps i (cons s rest) seen steps = do
  step ← validate_step i s seen
  validate_steps (suc i) rest (step.id ∷ seen) (steps ++ step ∷ [])

plan_goal : Option Json → Validated String
plan_goal (some (str goal)) =
    if is_blank goal then invalid "plan goal must be a non-empty string" else valid goal
plan_goal _ = invalid "plan goal must be a non-empty string"

plan_steps : Option Json → Validated Items
plan_steps (some (arr (cons s rest))) = valid (cons s rest)
plan_steps _ = invalid "plan must have at least one step"

unfoldable pub validate_plan : Json → Validated Plan
unfolding plan_goal plan_steps
validate_plan input = do
  goal ← plan_goal (get input "goal")
  given ← plan_steps (get input "steps")
  steps ← validate_steps 0 given [] []
  valid (record { goal = goal; steps = steps })

abbrev status_eq : PlanStepStatus → PlanStepStatus → Bool
status_eq a b = str_eq (status_name a) (status_name b)

-- The part of the summary for one status; nothing where no step has it.
count_part : List PlanStep → PlanStepStatus → List String
count_part steps status =
    let n = length (keep (λ (s : PlanStep). status_eq s.status status) steps) in
    if n == 0 then [] else concat (show n ∷ " " ∷ status_name status ∷ []) ∷ []

unfoldable pub summarize : Plan → String
unfolding count_part
summarize p =
    let parts =
      count_part p.steps done
      ++ count_part p.steps in_progress
      ++ count_part p.steps pending
      ++ count_part p.steps failed
      ++ count_part p.steps skipped in
    concat ("plan: " ∷ show (length p.steps) ∷ " step(s) — " ∷ join ", " parts ∷ [])

abbrev tool_field : Option String → Fields
tool_field none = end
tool_field (some t) = field "tool" (str t) end

abbrev pub step_json : PlanStep → Json
step_json s = obj (
    field "id" (num s.id) (
      field "description" (str s.description)
        (field "status" (str (status_name s.status)) (tool_field s.tool))))

abbrev pub steps_json : List PlanStep → Items
steps_json [] = nil
steps_json (s ∷ ss) = cons (step_json s) (steps_json ss)

abbrev pub plan_json : Plan → Json
plan_json p = obj (field "goal" (str p.goal) (field "steps" (arr (steps_json p.steps)) end))

unfoldable pub set_plan_execute : Json → ToolObservation
set_plan_execute input = elim (validate_plan input) [
  | invalid reason ↦ fail reason
  | valid p ↦ succeed (summarize p) (field "plan" (plan_json p) end)
]

unfoldable pub set_plan_tool : {W : Type 0} → ToolDef W
unfolding set_plan_execute
set_plan_tool = record {
  name = "set_plan";
  capability = plan;
  action_tier = t0;
  path_arg = none;
  execute = λ input ctx. pure (set_plan_execute input);
}
