-- ===== src/Start/Gated.antt =====
-- What precedes a run of startRun in runtime/src/index.ts.
use dream_team.Prelude.{
  String, ◌≡◌, refl, ap, ◌∙◌, concat, ◌⊎◌, inl, inr, true, false, none, some, [], ◌∷◌, Option-cases,
}
use dream_team.Json.{Json, null, bool, num, usd, str, arr, obj, Fields, field, end}
use dream_team.Artifacts.Record.{Files}
use dream_team.Effects.{
  Attempt, returns, throws, err, thrown, Session, M, resume, of_attempt, after_call, plain_error,
  JsError,
}
use dream_team.Effects.Outcome.{attempt-cases}
use dream_team.Tools.Registry.{Host}
use dream_team.Loop.Types.{RunResult}
use dream_team.Connectors.{Vault}
use dream_team.Database.{
  is_true, value_of, value_or_error, SupabaseClient, RpcAnswer, rpc_value, is_workspace_member,
}
use dream_team.Start.{
  if_member, StartRunInput, StartRunDeps, membership_error, dispatch_run, start_run,
}

-- The answer of the database that a run needs.
abbrev pub IsMember : Attempt RpcAnswer → Type 0
IsMember (returns a) = (a.error ≡ none) × (a.value ≡ bool true)
IsMember (throws e) = ⊥

abbrev pub member_params : String → Fields
member_params workspace = field "p_workspace_id" (str workspace) end

is_true-cases :
    (v : Json) → ((v ≡ bool true) × (is_true v ≡ true)) ⊎ (¬ (v ≡ bool true) × (is_true v ≡ false))
unfolding is_true
is_true-cases (bool true) = inl (refl, refl)
is_true-cases (bool false) = inr (λ e. cc e, refl)
is_true-cases null = inr (λ e. cc e, refl)
is_true-cases (num n) = inr (λ e. cc e, refl)
is_true-cases (usd n) = inr (λ e. cc e, refl)
is_true-cases (str s) = inr (λ e. cc e, refl)
is_true-cases (arr vs) = inr (λ e. cc e, refl)
is_true-cases (obj fs) = inr (λ e. cc e, refl)

module _ {W : Type 0} (client : SupabaseClient W) (name : String) (params : Fields) (w : W) where
  rpc_value-throws :
      (x : JsError)
      → (client.rpc name params w).0 ≡ throws x
      → rpc_value client name params w ≡ (throws x, (client.rpc name params w).1)
  unfolding rpc_value
  rpc_value-throws x e =
      ap (λ o. after_call o (λ answer w'. (value_of name answer, w')) (client.rpc name params w).1)
        e

  rpc_value-returns :
      (a : RpcAnswer)
      → (client.rpc name params w).0 ≡ returns a
      → rpc_value client name params w ≡ (value_of name a, (client.rpc name params w).1)
  unfolding rpc_value
  rpc_value-returns a e =
      ap (λ o. after_call o (λ answer w'. (value_of name answer, w')) (client.rpc name params w).1)
        e

module _ {W : Type 0} (host : Host W) (files : Files W) (vault : Vault W) (input : StartRunInput)
    (deps : StartRunDeps W) where
  abbrev pub asked : Session W → Attempt RpcAnswer × W
  asked s = deps.supabase.rpc "is_workspace_member" (member_params input.workspace_id) s.world

  module _ (s : Session W) where
    abbrev pub Refused : Type 0
    Refused =
        (e : JsError) × (start_run host files vault input deps s
          ≡ (err (thrown e), record s { world = (asked s).1 }))

    abbrev decided : Attempt Json → M W RunResult
    decided a =
        resume (of_attempt a) (λ value. if_member host files vault input deps (is_true value))

    answered_as :
        (a : Attempt Json)
        → rpc_value deps.supabase "is_workspace_member" (member_params input.workspace_id) s.world
          ≡ (a, (asked s).1)
        → start_run host files vault input deps s ≡ decided a (record s { world = (asked s).1 })
    unfolding start_run is_workspace_member
    answered_as (returns v) e = rw e refl
    answered_as (throws x) e = rw e refl

    unreached : (x : JsError) → (asked s).0 ≡ throws x → Refused
    unreached x e = (x, answered_as (throws x) (rpc_value-throws _ _ _ _ x e))

    reported :
        (a : RpcAnswer) (message : String)
        → (asked s).0 ≡ returns a
        → a.error ≡ some message
        → Refused
    reported a message e e' = (
      plain_error (concat ("is_workspace_member" ∷ " RPC failed: " ∷ message ∷ [])),
      answered_as (value_of "is_workspace_member" a) (rpc_value-returns _ _ _ _ a e)
          ∙ ap
              (λ o.
                decided (value_or_error "is_workspace_member" o a.value)
                  (record s { world = (asked s).1 }))
              e',
    )

    fine_run :
        (a : RpcAnswer)
        → (asked s).0 ≡ returns a
        → a.error ≡ none
        → start_run host files vault input deps s
          ≡ if_member host files vault input deps
              (is_true a.value)
              (record s { world = (asked s).1 })
    fine_run a e fine =
        answered_as (value_of "is_workspace_member" a) (rpc_value-returns _ _ _ _ a e)
        ∙ ap
            (λ o.
              decided (value_or_error "is_workspace_member" o a.value)
                (record s { world = (asked s).1 }))
            fine

    denied :
        (a : RpcAnswer)
        → (asked s).0 ≡ returns a
        → a.error ≡ none
        → is_true a.value ≡ false
        → Refused
    denied a e fine no' = (
      membership_error input.workspace_id,
      fine_run a e fine
          ∙ ap (λ b. if_member host files vault input deps b (record s { world = (asked s).1 }))
              no',
    )

    admitted :
        (a : RpcAnswer)
        → (asked s).0 ≡ returns a
        → a.error ≡ none
        → is_true a.value ≡ true
        → start_run host files vault input deps s
          ≡ dispatch_run host files vault input deps (record s { world = (asked s).1 })
    admitted a e fine yes' =
        fine_run a e fine
        ∙ ap (λ b. if_member host files vault input deps b (record s { world = (asked s).1 })) yes'

    -- startRun asks the database whether the user is a member of the workspace. If the answer is the
    -- value true, and no error, the run is dispatched; else startRun throws, and that question is all
    -- that it has done.
    pub start_run-IsMember :
        (IsMember (asked s).0
          × (start_run host files vault input deps s
              ≡ dispatch_run host files vault input deps (record s { world = (asked s).1 })))
        ⊎ (¬ (IsMember (asked s).0) × Refused)
    start_run-IsMember = elim (attempt-cases (asked s).0) [
      | inr (x, e) ↦ inr (rw e (λ m. m), unreached x e)
      | inl (answer, e) ↦ elim (Option-cases answer.error) [
        | inr (message, e') ↦ inr (rw e (λ m. cc (m.0, e')), reported answer message e e')
        | inl fine ↦ elim (is_true-cases answer.value) [
          | inl (true', yes') ↦ inl (rw e (fine, true'), admitted answer e fine yes')
          | inr (other, no') ↦ inr (rw e (λ m. other m.1), denied answer e fine no')
        ]
      ]
    ]
