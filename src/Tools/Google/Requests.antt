-- ===== src/Tools/Google/Requests.antt =====
-- The Google tools return or throw.
use dream_team.Prelude.{
  refl, String, true, false, none, some, inl, inr, Bool-cases, Option-cases, arith,
}
use dream_team.Json.{Json, get}
use dream_team.Effects.{Attempt, M, ◌>>=◌}
use dream_team.Effects.Outcome.{attempt-cases}
use dream_team.Effects.Settled.{Calm, Calm-call, Settles}
use dream_team.Tools.Types.{ToolObservation, ToolExecContext, GoogleProvider, ConnectorAccess}
use dream_team.Tools.Google.{Http, HttpRequest, with_token, send, with_connectors, lift, is_ok}
use dream_team.Tools.Google.Gmail.{
  gmail_send_execute, gmail_checked, gmail_deliver, includes_at, recipient, both_texts,
  sent_observation,
}
use dream_team.Tools.Google.Calendar.{
  calendar_read_execute, calendar_write_execute, calendar_checked, listed, created, title_in,
  both_times,
}
use dream_team.Tools.Google.Drive.{drive_read_execute, drive_query, files_listed}
use dream_team.Tools.Google.Sheets.{
  spreadsheet_id, sheets_read_execute, sheets_checked, sheets_range, values_read,
}

module _ {W : Type 0} (D : Type 0) where
  pub lift-bind :
      {A B : Type 0} (a : Attempt A) (f : A → M W B)
      → ((v : A) → Settles D (f v))
      → Settles D (lift a >>= f)
  lift-bind a f h s = elim (attempt-cases a) [ inl (v, e) ↦ rw e (h v s) | inr (x, e) ↦ rw e tt ]

  pub lift-Calm :
      {A B : Type 0} (a : Attempt A) (f : A → M W B)
      → ((v : A) → Calm D (f v))
      → Calm D (lift a >>= f)
  lift-Calm a f h s = elim (attempt-cases a) [
    | inl (v, e) ↦ rw e (h v s)
    | inr (x, e) ↦ rw e (tt, refl)
  ]

  module _ (http : Http W) where
    with_token-Calm :
        (access : ConnectorAccess W) (p : GoogleProvider) (next : String → M W ToolObservation)
        → ((t : String) → Calm D (next t))
        → Calm D (with_token http access p next)
    unfolding with_token
    with_token-Calm access p next h s = elim (attempt-cases (access.google_token p s.world).0) [
      | inl (t, e) ↦ rw e (h t _)
      | inr (x, e) ↦ rw e (tt, refl)
    ]

    send-Calm :
        (label api : String) (request : HttpRequest) (next : Json → M W ToolObservation)
        → ((answer : Json) → Calm D (next answer))
        → Calm D (send http label api request next)
    unfolding send
    send-Calm label api request next h s = elim (attempt-cases (http.fetch request s.world).0) [
      | inr (x, e) ↦ rw e (tt, refl)
      | inl (res, e) ↦ elim (Bool-cases (is_ok res)) [
        | inl good ↦ rw (e, send) (rw (good, send) (Calm-call D http.json next h _))
        | inr bad ↦ rw (e, send) (rw (bad, send) (tt, refl))
      ]
    ]

    with_connectors-Calm :
        (absent : String) (ctx : ToolExecContext W) (next : ConnectorAccess W → M W ToolObservation)
        → ((a : ConnectorAccess W) → Calm D (next a))
        → Calm D (with_connectors http absent ctx next)
    unfolding with_connectors
    with_connectors-Calm absent ctx next h s = elim (Option-cases ctx.connectors) [
      | inl missing ↦ rw (missing, with_connectors) (tt, refl)
      | inr (a, there) ↦ rw (there, with_connectors) (h a s)
    ]

    gmail_checked-Calm :
        (access : ConnectorAccess W) (input : Json) → Calm D (gmail_checked http access input)
    unfolding gmail_checked gmail_deliver sent_observation
    gmail_checked-Calm access input s = elim (Option-cases (recipient input)) [
      | inl missing ↦ rw (missing, gmail_checked) (tt, refl)
      | inr (to, there) ↦ elim (attempt-cases (includes_at to)) [
        | inr (x, e) ↦ rw (there, gmail_checked) (rw (e, gmail_checked) (tt, refl))
        | inl (false, e) ↦ rw (there, gmail_checked) (rw (e, gmail_checked) (tt, refl))
        | inl (true, e) ↦
            elim (Option-cases (both_texts (get input "subject") (get input "body"))) [
              | inl m ↦
                  rw (there, gmail_checked)
                    (rw (e, gmail_checked) (rw (m, gmail_deliver) (tt, refl)))
              | inr ((subject, body), m) ↦
                  rw (there, gmail_checked)
                    (rw (e, gmail_checked)
                      (rw (m, gmail_deliver)
                        (with_token-Calm access _ _
                          (λ t. send-Calm _ _ _ _ (λ answer s. ground arith)) s)))
            ]
      ]
    ]

    pub gmail_send_execute-Calm :
        (input : Json) (ctx : ToolExecContext W) → Calm D (gmail_send_execute http input ctx)
    unfolding gmail_send_execute
    gmail_send_execute-Calm input ctx =
        with_connectors-Calm _ ctx _ (λ a. gmail_checked-Calm a input)

    pub calendar_read_execute-Calm :
        (input : Json) (ctx : ToolExecContext W) → Calm D (calendar_read_execute http input ctx)
    unfolding calendar_read_execute listed
    calendar_read_execute-Calm input ctx = with_connectors-Calm _ ctx _ (λ a.
        with_token-Calm a _ _
          (λ t. Calm-call D http.now_iso _ (λ now. send-Calm _ _ _ _ (λ answer s. ground arith))))

    calendar_checked-Calm :
        (input : Json) (access : ConnectorAccess W) → Calm D (calendar_checked http input access)
    unfolding calendar_checked created
    calendar_checked-Calm input access s = elim (Option-cases (title_in (get input "title"))) [
      | inl m ↦ rw (m, calendar_checked) (tt, refl)
      | inr (title, m) ↦
          elim (Option-cases (both_times (get input "startIso") (get input "endIso"))) [
            | inl m' ↦ rw (m, calendar_checked) (rw (m', calendar_checked) (tt, refl))
            | inr ((a, b), m') ↦
                rw (m, calendar_checked)
                  (rw (m', calendar_checked)
                    (with_token-Calm access _ _ (λ t. send-Calm _ _ _ _ (λ answer s. ground arith))
                      s))
          ]
    ]

    pub calendar_write_execute-Calm :
        (input : Json) (ctx : ToolExecContext W) → Calm D (calendar_write_execute http input ctx)
    unfolding calendar_write_execute
    calendar_write_execute-Calm input ctx =
        with_connectors-Calm _ ctx _ (calendar_checked-Calm input)

    pub drive_read_execute-Calm :
        (input : Json) (ctx : ToolExecContext W) → Calm D (drive_read_execute http input ctx)
    unfolding drive_read_execute drive_query files_listed
    drive_read_execute-Calm input ctx = with_connectors-Calm _ ctx _ (λ a.
        with_token-Calm a _ _
          (λ t. lift-Calm _ _ (λ q. send-Calm _ _ _ _ (λ answer s. ground arith))))

    sheets_checked-Calm :
        (input : Json) (access : ConnectorAccess W) → Calm D (sheets_checked http input access)
    unfolding sheets_checked sheets_range values_read
    sheets_checked-Calm input access s =
        elim (attempt-cases (spreadsheet_id (get input "spreadsheetId"))) [
          | inr (x, e) ↦ rw (e, sheets_checked) (tt, refl)
          | inl (none, e) ↦ rw (e, sheets_checked) (tt, refl)
          | inl (some i, e) ↦
              rw (e, sheets_checked)
                (with_token-Calm access _ _
                  (λ t. lift-Calm _ _ (λ r. send-Calm _ _ _ _ (λ answer s'. ground arith))) s)
        ]

    pub sheets_read_execute-Calm :
        (input : Json) (ctx : ToolExecContext W) → Calm D (sheets_read_execute http input ctx)
    unfolding sheets_read_execute
    sheets_read_execute-Calm input ctx = with_connectors-Calm _ ctx _ (sheets_checked-Calm input)
