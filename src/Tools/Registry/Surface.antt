-- ===== src/Tools/Registry/Surface.antt =====
-- The surface of a role is what the registry's table and its grant say.
use dream_team.Prelude.{
  Option, none, map, ◌∙◌, String, ◌≡◌, refl, ap, ◌↔◌, Bool, true, false, not, ◌||◌, ◌&&◌, some,
  List, [], ◌∷◌, keep, all, All, if◌then◌else◌, arith, is_some, Option-cases, inl, inr,
}
use dream_team.Gate.Types.{
  RoleGrant, Capability, Tier, t0, t1, t2, t3, tier_of, cap_eq, w, sh, spawn, plan, netr, conr,
  conw, comm,
}
use dream_team.Gate.Objects.{lookup, index, has_own, prototype_names, lookup-all, includes-all}
use dream_team.Gate.Grants.{matrix, role_grant}
use dream_team.Gate.Org.{routing, is_dispatcher}
use dream_team.Effects.{returns}
use dream_team.Tools.Types.{ToolDef}
use dream_team.Tools.Plan.{set_plan_tool}
use dream_team.Tools.Spawn.{spawn_tool}
use dream_team.Tools.WriteFile.{write_file_tool}
use dream_team.Tools.Shell.{shell_tool}
use dream_team.Tools.WebFetch.{web_fetch_tool}
use dream_team.Tools.Google.Gmail.{gmail_send_tool}
use dream_team.Tools.Google.Calendar.{calendar_read_tool, calendar_write_tool}
use dream_team.Tools.Google.Drive.{drive_read_tool}
use dream_team.Tools.Google.Sheets.{sheets_read_tool}
use dream_team.Tools.Registry.{Host, all_tools, tools_for_role}

abbrev holds : RoleGrant → Capability → Bool
holds g c = is_some (tier_of g c)

dispatch_only : String → RoleGrant → Bool
dispatch_only role g =
    not (is_dispatcher role)
    || (holds g plan
        && holds g spawn
        && not (holds g w)
        && not (holds g sh)
        && not (holds g netr)
        && not (holds g conr)
        && not (holds g conw)
        && not (holds g comm))

dispatch_only_table : all (λ e. dispatch_only e.0 e.1) matrix ≡ true
unfolding dispatch_only matrix is_dispatcher has_own lookup routing tier_of cap_eq
dispatch_only_table = refl

prototype_table : all (λ s. not (is_dispatcher s)) prototype_names ≡ true
unfolding prototype_names is_dispatcher has_own lookup routing
prototype_table = refl

-- What a dispatcher's grant holds of the tools' capabilities.
record IsDispatcherGrant (g : RoleGrant) : Type 0 where
  plans : holds g plan ≡ true
  spawns : holds g spawn ≡ true
  no_write : holds g w ≡ false
  no_shell : holds g sh ≡ false
  no_fetch : holds g netr ≡ false
  no_read : holds g conr ≡ false
  no_event : holds g conw ≡ false
  no_mail : holds g comm ≡ false

dispatch_only-holds :
    (role : String) (g : RoleGrant)
    → dispatch_only role g ≡ true
    → is_dispatcher role ≡ true
    → IsDispatcherGrant g
unfolding dispatch_only
dispatch_only-holds role g h d = record {
  plans = ground arith;
  spawns = ground arith;
  no_write = ground arith;
  no_shell = ground arith;
  no_fetch = ground arith;
  no_read = ground arith;
  no_event = ground arith;
  no_mail = ground arith;
}

known-IsDispatcherGrant :
    (role : String) (g : RoleGrant)
    → role_grant role ≡ some g
    → is_dispatcher role ≡ true
    → IsDispatcherGrant g
unfolding role_grant index
known-IsDispatcherGrant role g known d = elim (Option-cases (lookup matrix role)) [
  | inl absent ↦ absurd (
      ground
        (arith, includes-all (λ s. not (is_dispatcher s)) prototype_names role prototype_table))
  | inr (h, found) ↦
      dispatch_only-holds role g
        (ground (arith, lookup-all dispatch_only matrix role dispatch_only_table found)) d
]

module _ {A : Type 0} (p : A → Bool) (P : A → Type 0) where
  kept :
      (b : Bool) (x : A) (xs : List A)
      → All P (if b then x ∷ xs else xs) ↔ ((b ≡ true → P x) × All P xs)
  kept true x xs = (λ h. (λ _. h.0, h.1), λ h. (h.0 refl, h.1))
  kept false x xs = (λ h. (λ e. cc e, h), λ h. h.1)

  -- What the filter keeps.
  keep-All : (xs : List A) → All P (keep p xs) ↔ All (λ x. p x ≡ true → P x) xs
  keep-All [] = (λ h. h, λ h. h)
  keep-All (x ∷ xs) =
      let step = kept (p x) x (keep p xs) in
      (λ h. ((step.0 h).0, (keep-All xs).0 (step.0 h).1), λ h. step.1 (h.0, (keep-All xs).1 h.1))

module _ {W : Type 0} (host : Host W) where
  dispatcher_keeps :
      (g : RoleGrant)
      → IsDispatcherGrant g
      → keep (λ (t : ToolDef W). is_some (tier_of g t.capability)) (all_tools host)
        ≡ set_plan_tool ∷ spawn_tool ∷ []
  unfolding all_tools set_plan_tool write_file_tool shell_tool spawn_tool web_fetch_tool
      calendar_read_tool calendar_write_tool gmail_send_tool drive_read_tool sheets_read_tool
  dispatcher_keeps g h =
      rw (h.plans, h.spawns, h.no_write, h.no_shell, h.no_fetch, h.no_read, h.no_event, h.no_mail)
        refl

  -- A dispatcher of the org chart is handed the planner and the spawn tool, and nothing else.
  pub tools_for_role-dispatcher :
      (role : String) (g : RoleGrant)
      → role_grant role ≡ some g
      → is_dispatcher role ≡ true
      → tools_for_role host role ≡ returns (set_plan_tool ∷ spawn_tool ∷ [])
  unfolding tools_for_role
  tools_for_role-dispatcher role g known d =
      rw (known, tools_for_role)
        (ap returns (dispatcher_keeps g (known-IsDispatcherGrant role g known d)))

  -- What holds of the tools of a role, and of the registered tools that its grant holds.
  pub tools_for_role-All :
      (P : ToolDef W → Type 0) (role : String) (g : RoleGrant) (ts : List (ToolDef W))
      → role_grant role ≡ some g
      → tools_for_role host role ≡ returns ts
      → All P ts ↔ All (λ t. is_some (tier_of g t.capability) ≡ true → P t) (all_tools host)
  unfolding tools_for_role
  tools_for_role-All P role g ts known e =
      let same : ts ≡ keep (λ (t : ToolDef W). is_some (tier_of g t.capability)) (all_tools host) =
        cc (rw (known, tools_for_role) at e) in
      rw same (keep-All (λ (t : ToolDef W). is_some (tier_of g t.capability)) P (all_tools host))

-- What the gate sees of a tool.
pub record Signature : Type 0 where
  pub name : String
  pub capability : Capability
  pub action_tier : Tier
  pub path_arg : Option String

abbrev pub signature : {W : Type 0} → ToolDef W → Signature
signature t = record {
  name = t.name;
  capability = t.capability;
  action_tier = t.action_tier;
  path_arg = t.path_arg;
}

abbrev entry : String → Capability → Tier → Option String → Signature
entry name capability tier path_arg = record {
  name = name;
  capability = capability;
  action_tier = tier;
  path_arg = path_arg;
}

-- The tools that there are.
abbrev pub tool_table : List Signature
tool_table =
    entry "set_plan" plan t0 none
    ∷ entry "write_file" w t3 (some "path")
    ∷ entry "shell" sh t2 none
    ∷ entry "spawn" spawn t2 none
    ∷ entry "web_fetch" netr t2 none
    ∷ entry "calendar_read" conr t2 none
    ∷ entry "calendar_write" conw t1 none
    ∷ entry "gmail_send" comm t1 none
    ∷ entry "drive_read" conr t2 none
    ∷ entry "sheets_read" conr t2 none
    ∷ []

module _ {A B : Type 0} (f : A → B) (p : B → Bool) where
  map-keep_step :
      (b : Bool) (x : A) (xs : List A) {ys : List B}
      → map f xs ≡ ys
      → map f (if b then x ∷ xs else xs) ≡ (if b then f x ∷ ys else ys)
  map-keep_step true x xs e = ap (λ l. f x ∷ l) e
  map-keep_step false x xs e = e

  map-keep : (xs : List A) → map f (keep (λ x. p (f x)) xs) ≡ keep p (map f xs)
  map-keep [] = refl
  map-keep (x ∷ xs) = map-keep_step (p (f x)) x (keep (λ y. p (f y)) xs) (map-keep xs)

module _ {W : Type 0} (host : Host W) where
  all_tools-table : map signature (all_tools host) ≡ tool_table
  unfolding all_tools set_plan_tool write_file_tool shell_tool spawn_tool web_fetch_tool
      calendar_read_tool calendar_write_tool gmail_send_tool drive_read_tool sheets_read_tool
  all_tools-table = refl

  -- A role that has a grant is handed, once each and in the order of the table, exactly the ten
  -- tools of the table whose capability its grant holds, each under its name, and with the
  -- capability, the tier and the path argument by which the gate decides its calls.
  pub tools_for_role-table :
      (role : String) (g : RoleGrant) (ts : List (ToolDef W))
      → role_grant role ≡ some g
      → tools_for_role host role ≡ returns ts
      → map signature ts ≡ keep (λ t. is_some (tier_of g t.capability)) tool_table
  unfolding tools_for_role
  tools_for_role-table role g ts known e =
      let same : ts ≡ keep (λ (t : ToolDef W). is_some (tier_of g t.capability)) (all_tools host) =
        cc (rw (known, tools_for_role) at e) in
      ap (map signature) same
      ∙ map-keep signature (λ t. is_some (tier_of g t.capability)) (all_tools host)
      ∙ ap (keep (λ (t : Signature). is_some (tier_of g t.capability))) (all_tools-table)
