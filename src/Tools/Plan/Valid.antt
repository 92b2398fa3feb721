-- ===== src/Tools/Plan/Valid.antt =====
-- What the validation of runtime/src/tools/plan.ts accepts.
use dream_team.Prelude.{
  ℕ, suc, String, ◌≡◌, ◌≢◌, refl, sym, ap, subst, ◌∙◌, false, Option, none, some, List, [], ◌∷◌,
  ◌++◌, arith, is_blank, str_eq, eq_iff, Bool-cases, inl, inr,
}
use mathlib.Core.List.{append_assoc, append-nil}
use dream_team.Json.{Json, str, arr, Items, nil, cons, get, get_fields}
use dream_team.Tools.Plan.{
  PlanStepStatus, pending, in_progress, done, failed, skipped, status_name, status_of, PlanStep,
  Plan, Validated, numeric_id, new_id, step_description, step_status, step_tool, plan_goal,
  plan_steps, valid, invalid, ◌>>=◌, member, validate_step, validate_steps, validate_plan,
  tool_field, step_json, steps_json, plan_json,
}

pub record IsStep (seen : List ℕ) (s : PlanStep) : Type 0 where
  pub fresh : member s.id seen ≡ false
  pub described : is_blank s.description ≡ false
  pub named : s.tool ≢ some ""

-- Each step is described, names no empty tool, and has an id that no step before it has.
abbrev pub AreSteps : List ℕ → List PlanStep → Type 0
AreSteps seen [] = Unit
AreSteps seen (s ∷ ss) = IsStep seen s × AreSteps (s.id ∷ seen) ss

pub record IsPlan (p : Plan) : Type 0 where
  pub goal_given : is_blank p.goal ≡ false
  pub some_step : p.steps ≢ []
  pub sound : AreSteps [] p.steps

step_status-status_name :
    (id : ℕ) (st : PlanStepStatus) → step_status id (some (str (status_name st))) ≡ valid st
unfolding step_status status_of
step_status-status_name id pending = refl
step_status-status_name id in_progress = refl
step_status-status_name id done = refl
step_status-status_name id failed = refl
step_status-status_name id skipped = refl

bind-valid :
    {A B : Type 0} (m : Validated A) (f : A → Validated B) {b : B}
    → (m >>= f) ≡ valid b
    → (a : A) × (m ≡ valid a) × (f a ≡ valid b)
bind-valid (valid a) f e = (a, refl, e)
bind-valid (invalid reason) f e = cc

new_id-fresh :
    (given : ℕ) (seen : List ℕ) {id : ℕ} → new_id given seen ≡ valid id → member id seen ≡ false
unfolding new_id
new_id-fresh given seen {id} e = elim (Bool-cases (member given seen)) [
  | inl there ↦ cc (rw (there, new_id) at e)
  | inr fresh ↦ let same : given ≡ id = cc (rw (fresh, new_id) at e) in rw same at fresh
]

step_description-described :
    (id : ℕ) (o : Option Json) {d : String} → step_description id o ≡ valid d → is_blank d ≡ false
unfolding step_description
step_description-described id (some (str d')) {d} e = elim (Bool-cases (is_blank d')) [
  | inl blank ↦ cc (rw (blank, step_description) at e)
  | inr given ↦ let same : d' ≡ d = cc (rw (given, step_description) at e) in rw same at given
]
step_description-described id _ e = cc

step_tool-named :
    (id : ℕ) (o : Option Json) {t : Option String} → step_tool id o ≡ valid t → t ≢ some ""
unfolding step_tool
step_tool-named id none e = cc
step_tool-named id (some (str s)) e = ground (arith, eq_iff s "")
step_tool-named id _ e = cc

validate_step-IsStep :
    (i : ℕ) (j : Json) (seen : List ℕ) (s : PlanStep)
    → validate_step i j seen ≡ valid s
    → IsStep seen s
unfolding validate_step
validate_step-IsStep i j seen s e =
    let (given, _, e₁) = bind-valid (numeric_id i (get j "id")) _ e in
    let (id, new, e₂) = bind-valid (new_id given seen) _ e₁ in
    let (description, text, e₃) = bind-valid (step_description id (get j "description")) _ e₂ in
    let (status, _, e₄) = bind-valid (step_status id (get j "status")) _ e₃ in
    let (tool, empty, e₅) = bind-valid (step_tool id (get j "tool")) _ e₄ in
    let same : record { id = id; description = description; tool = tool; status = status } ≡ s =
      cc e₅ in
    subst (IsStep seen) same (record {
      fresh = new_id-fresh given seen new;
      described = step_description-described id (get j "description") text;
      named = step_tool-named id (get j "tool") empty;
    })

validate_steps-AreSteps :
    (i : ℕ) (given : Items) (seen : List ℕ) (before : List PlanStep) {out : List PlanStep}
    → validate_steps i given seen before ≡ valid out
    → (steps : List PlanStep) × (out ≡ before ++ steps) × AreSteps seen steps
unfolding validate_steps
validate_steps-AreSteps i nil seen before {out} e = ([], cc (e, append-nil before), tt)
validate_steps-AreSteps i (cons j rest) seen before {out} e =
    let (s, one, more) = bind-valid (validate_step i j seen) _ e in
    let (steps, same, sound) =
      validate_steps-AreSteps (suc i) rest (s.id ∷ seen) (before ++ s ∷ []) more in
    (
      s ∷ steps,
      same ∙ append_assoc before (s ∷ []) steps,
      (validate_step-IsStep i j seen s one, sound),
    )

plan_goal-given : (o : Option Json) {g : String} → plan_goal o ≡ valid g → is_blank g ≡ false
unfolding plan_goal
plan_goal-given (some (str g')) {g} e = elim (Bool-cases (is_blank g')) [
  | inl blank ↦ cc (rw (blank, plan_goal) at e)
  | inr given ↦ let same : g' ≡ g = cc (rw (given, plan_goal) at e) in rw same at given
]
plan_goal-given _ e = cc

plan_steps-some : (o : Option Json) {given : Items} → plan_steps o ≡ valid given → given ≢ nil
unfolding plan_steps
plan_steps-some (some (arr (cons j rest))) e = cc
plan_steps-some (some (arr nil)) e = cc
plan_steps-some _ e = cc

validate_steps-some :
    (i : ℕ) (given : Items) {out : List PlanStep}
    → given ≢ nil
    → validate_steps i given [] [] ≡ valid out
    → out ≢ []
unfolding validate_steps
validate_steps-some i nil n e = absurd (n refl)
validate_steps-some i (cons j rest) n e =
    let (s, one, more) = bind-valid (validate_step i j []) _ e in
    let (steps, same, sound) = validate_steps-AreSteps (suc i) rest (s.id ∷ []) (s ∷ []) more in
    cc same

-- A plan that is accepted has a goal and a step, each step is described and names no empty tool, and
-- no two of them have the same id.
pub validate_plan-IsPlan : (input : Json) (p : Plan) → validate_plan input ≡ valid p → IsPlan p
unfolding validate_plan
validate_plan-IsPlan input p e =
    let (goal, text, e₁) = bind-valid (plan_goal (get input "goal")) _ e in
    let (given, there, e₂) = bind-valid (plan_steps (get input "steps")) _ e₁ in
    let (steps, checked, e₃) = bind-valid (validate_steps 0 given [] []) _ e₂ in
    let (more, same, sound) = validate_steps-AreSteps 0 given [] [] checked in
    let whole : record { goal = goal; steps = steps } ≡ p = cc e₃ in
    subst IsPlan whole (record {
      goal_given = plan_goal-given (get input "goal") text;
      some_step = validate_steps-some 0 given (plan_steps-some (get input "steps") there) checked;
      sound = subst (AreSteps []) (sym same) sound;
    })

step_tool-tool_field :
    (id : ℕ) (t : Option String)
    → t ≢ some ""
    → step_tool id (get_fields (tool_field t) "tool") ≡ valid t
unfolding step_tool get_fields
step_tool-tool_field id none n = refl
step_tool-tool_field id (some s) n = elim (Bool-cases (str_eq s "")) [
  | inl empty ↦ absurd (n (ap some ((eq_iff s "").0 empty)))
  | inr given ↦ rw given refl
]

validate_step-step_json :
    (i : ℕ) (s : PlanStep) (seen : List ℕ)
    → IsStep seen s
    → validate_step i (step_json s) seen ≡ valid s
unfolding validate_step numeric_id new_id step_description get get_fields
validate_step-step_json i s seen h =
    rw
      (
        h.fresh,
        h.described,
        step_status-status_name s.id s.status,
        step_tool-tool_field s.id s.tool h.named,
      )
      refl

validate_steps-steps_json :
    (i : ℕ) (ss : List PlanStep) (seen : List ℕ) (before : List PlanStep)
    → AreSteps seen ss
    → validate_steps i (steps_json ss) seen before ≡ valid (before ++ ss)
unfolding validate_steps
validate_steps-steps_json i [] seen before h = ap valid (sym (append-nil before))
validate_steps-steps_json i (s ∷ ss) seen before (one, more) =
    rw (validate_step-step_json i s seen one, validate_steps)
      (validate_steps-steps_json (suc i) ss (s.id ∷ seen) (before ++ s ∷ []) more
        ∙ ap valid (append_assoc before (s ∷ []) ss))

plan_steps-steps_json :
    (ss : List PlanStep) → ss ≢ [] → plan_steps (some (arr (steps_json ss))) ≡ valid (steps_json ss)
unfolding plan_steps
plan_steps-steps_json [] n = absurd (n refl)
plan_steps-steps_json (s ∷ ss) n = refl

-- A plan with those properties, encoded as the observation and the next request carry it, is
-- accepted, and validates to itself.
pub validate_plan-plan_json : (p : Plan) → IsPlan p → validate_plan (plan_json p) ≡ valid p
unfolding validate_plan plan_goal get get_fields
validate_plan-plan_json p h =
    rw
      (
        h.goal_given,
        plan_steps-steps_json p.steps h.some_step,
        validate_steps-steps_json 0 p.steps [] [] h.sound,
      )
      refl
