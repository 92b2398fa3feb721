-- ===== src/Host/Replies.antt =====
-- The handler of runtime/src/host/electron-adapter.ts always answers.
use dream_team.Prelude.{◌≡◌, inl, inr, Bool, true, false, List, All}
use dream_team.Effects.{returns, Result, ok, err, thrown, out_of_fuel, Session, M, pure}
use dream_team.Effects.Outcome.{Holds, attempt-cases}
use dream_team.Effects.Settled.{Settles, Settles-bind, Settles-call}
use dream_team.Artifacts.Record.{Files}
use dream_team.Connectors.{Vault}
use dream_team.Database.{SupabaseClient}
use dream_team.Loop.Types.{ModelClient}
use dream_team.Start.{start_run}
use dream_team.Tools.Types.{ToolDef}
use dream_team.Tools.Google.Requests.{lift-bind}
use dream_team.Tools.Registry.{Host}
use dream_team.Loop.Calls.{Lasts}
use dream_team.Start.Tree.{start_run-Settles}
use dream_team.Host.{
  brief_of, input_for, deps_for, RunStartRequest, RunStartReply, AdapterConfig, with_tools,
  with_secrets, if_available, catching, handle_run_start, reply_of, reply_to,
}

abbrev pub Answers : {W A : Type 0} → Result A × Session W → Type 0
Answers (ok a, s) = Unit
Answers (err e, s) = ⊥

module _ {W : Type 0} where
  caught-Answers :
      (r : Result RunStartReply) (s s' : Session W)
      → Holds ⊥ (λ _ _. Unit) r s
      → Answers (elim r as (λ _. Result RunStartReply × Session W) [
        | ok reply ↦ (ok reply, s')
        | err (thrown e) ↦ (ok (reply_to e), s')
        | err out_of_fuel ↦ (err out_of_fuel, s')
      ])
  caught-Answers (ok a) s s' h = tt
  caught-Answers (err (thrown e)) s s' h = tt
  caught-Answers (err out_of_fuel) s s' h = h

  catching-Answers :
      (body : M W RunStartReply) (s : Session W) → Settles ⊥ body → Answers (catching body s)
  unfolding catching
  catching-Answers body s h = caught-Answers (body s).0 (body s).1 (body s).1 (h s)

module _ {W : Type 0} (host : Host W) (files : Files W) (vault : Vault W) (config : AdapterConfig W)
    (req : RunStartRequest)
    (lasts : (tools : List (ToolDef W))
      → config.tools_for req.role ≡ returns tools
      → All (Lasts ⊥) tools) where
  with_tools-Settles :
      (supabase : SupabaseClient W) (model_client : ModelClient W) (tools : List (ToolDef W))
      → All (Lasts ⊥) tools
      → Settles ⊥ (with_tools host files vault config req supabase model_client tools)
  unfolding with_tools
  with_tools-Settles supabase model_client tools h =
      lift-bind ⊥ (config.grant_for req.role) _ (λ grant.
        lift-bind ⊥ (config.approvals_for req) _ (λ approvals.
          lift-bind ⊥ (config.system_for req.role (brief_of req.messages)) _ (λ system.
            Settles-bind ⊥
              (start_run host files vault
                (input_for host files vault config req grant approvals system)
                (deps_for host files vault config req supabase model_client tools))
              (λ result. pure (reply_of host files vault config req result))
              (start_run-Settles host files vault _ _ h) (λ result s. tt))))

  with_secrets-Settles : Settles ⊥ (with_secrets host files vault config req)
  unfolding with_secrets
  with_secrets-Settles = Settles-call ⊥ config.anthropic_key _ (λ api_key.
      Settles-call ⊥ config.session _ (λ session.
        Settles-call ⊥ (config.make_supabase_client session) _ (λ supabase.
          Settles-call ⊥ (config.make_model_client api_key) _ (λ model_client s.
            elim (attempt-cases (config.tools_for req.role)) [
              | inr (x, e) ↦ rw e tt
              | inl (tools, e) ↦
                  rw e (with_tools-Settles supabase model_client tools (lasts tools e) s)
            ]))))

  if_available-Settles : (b : Bool) → Settles ⊥ (if_available host files vault config req b)
  if_available-Settles false s = tt
  if_available-Settles true s = with_secrets-Settles s

  -- If the tools that the registry hands out return or throw where child runs do, the handler answers
  -- every request with a reply: no exception of the run crosses to the renderer.
  pub handle_run_start-Answers :
      (s : Session W) → Answers (handle_run_start host files vault config req s)
  unfolding handle_run_start
  handle_run_start-Answers s = catching-Answers _ s (
      Settles-call ⊥ config.is_encryption_available (if_available host files vault config req)
        if_available-Settles)
