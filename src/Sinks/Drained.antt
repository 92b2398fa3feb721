-- ===== src/Sinks/Drained.antt =====
-- What flush of the write-through sinks of runtime/src/trace/rpc-sink.ts and
-- runtime/src/packets/rpc-sink.ts tells.
use dream_team.Prelude.{
  ℕ, suc, ◌+◌, String, ◌≡◌, refl, sym, subst, ap, ◌∙◌, ◌↔◌, ◌⊎◌, inl, inr, false, some, List, [],
  ◌∷◌, ◌++◌, map, length, arith, Option-cases, if◌then◌else◌,
}
use mathlib.Core.List.{map-append, append_assoc, append-nil}
use dream_team.Sinks.{
  WriteFailure, Write, RpcSink, new_sink, in_flight_kind, settle, delete, SinkEvent, append, fulfil,
  reject, finally, Flushed, resolves, on_append, on_event, after_events, flush,
}

-- The number of writes in flight.
abbrev pub in_flight : List Write → ℕ
in_flight [] = 0
in_flight (write ∷ rest) = if write.settled then in_flight rest else suc (in_flight rest)

in_flight-append :
    (ws : List Write) (w : Write) → in_flight (ws ++ w ∷ []) ≡ in_flight ws + in_flight (w ∷ [])
in_flight-append [] w = omega arith
in_flight-append (v ∷ ws) w = ground (arith, in_flight-append ws w)

in_flight-settle :
    (id : ℕ) (ws : List Write) {kind : String}
    → in_flight_kind id ws ≡ some kind
    → in_flight ws ≡ suc (in_flight (settle id ws))
unfolding in_flight_kind settle
in_flight-settle id [] e = cc
in_flight-settle id (w ∷ ws) {kind} e = ground (arith, in_flight-settle id ws {kind = kind})

in_flight-delete : (id : ℕ) (ws : List Write) → in_flight (delete id ws) ≡ in_flight ws
unfolding delete
in_flight-delete id [] = refl
in_flight-delete id (w ∷ ws) = ground (arith, in_flight-delete id ws)

list-cases : {A : Type 0} (xs : List A) → (xs ≡ []) ⊎ ((x : A) × (ys : List A) × (xs ≡ x ∷ ys))
list-cases [] = inl refl
list-cases (x ∷ ys) = inr (x, ys, refl)

module _ {P : Type 0} where
  -- What a history of events appended, settled and rejected.
  abbrev pub appended : List (SinkEvent P) → ℕ
  appended [] = 0
  appended (append kind params ∷ es) = suc (appended es)
  appended (_ ∷ es) = appended es

  abbrev pub settlements : List (SinkEvent P) → ℕ
  settlements [] = 0
  settlements (fulfil id ∷ es) = suc (settlements es)
  settlements (reject id error ∷ es) = suc (settlements es)
  settlements (_ ∷ es) = settlements es

  abbrev pub errors : List (SinkEvent P) → List String
  errors [] = []
  errors (reject id error ∷ es) = error ∷ errors es
  errors (_ ∷ es) = errors es

  abbrev pub recorded : RpcSink P → List String
  recorded sink = map (λ (f : WriteFailure). f.error) sink.failures

  pub record Tallies (sink : RpcSink P) (es : List (SinkEvent P)) (sink' : RpcSink P) : Type 0 where
    pub balance : in_flight sink.pending + appended es ≡ in_flight sink'.pending + settlements es
    pub kept : recorded sink' ≡ recorded sink ++ errors es

  on_event-Tallies :
      (sink sink' : RpcSink P) (e : SinkEvent P)
      → on_event sink e ≡ some sink'
      → Tallies sink (e ∷ []) sink'
  unfolding on_event on_append
  on_event-Tallies sink sink' (append kind params) e =
      let same : on_append kind params sink ≡ sink' = cc e in
      subst (Tallies sink (append kind params ∷ [])) same (record {
        balance = omega (
          arith,
          in_flight-append sink.pending
              (record { id = length sink.sent; kind = kind; settled = false }),
        );
        kept = sym (append-nil (recorded sink));
      })
  on_event-Tallies sink sink' (fulfil id) e = elim (Option-cases (in_flight_kind id sink.pending)) [
    | inl gone ↦ cc (rw (gone, on_event) at e)
    | inr (kind, there) ↦
        let same : record sink { pending = settle id sink.pending } ≡ sink' =
          cc (rw (there, on_event) at e) in
        subst (Tallies sink (fulfil id ∷ [])) same (record {
          balance = omega (arith, in_flight-settle id sink.pending there);
          kept = sym (append-nil (recorded sink));
        })
  ]
  on_event-Tallies sink sink' (reject id error) e =
      elim (Option-cases (in_flight_kind id sink.pending)) [
        | inl gone ↦ cc (rw (gone, on_event) at e)
        | inr (kind, there) ↦
            let failure : WriteFailure = record { kind = kind; error = error } in
            let same : record sink {
              pending = settle id sink.pending;
              failures = sink.failures ++ failure ∷ [];
            }
                ≡ sink' =
              cc (rw (there, on_event) at e) in
            subst (Tallies sink (reject id error ∷ [])) same (record {
              balance = omega (arith, in_flight-settle id sink.pending there);
              kept = map-append _ sink.failures (failure ∷ []);
            })
      ]
  on_event-Tallies sink sink' (finally id) e =
      let same : record sink { pending = delete id sink.pending } ≡ sink' = cc e in
      subst (Tallies sink (finally id ∷ [])) same (record {
        balance = omega (arith, in_flight-delete id sink.pending);
        kept = sym (append-nil (recorded sink));
      })

  counted :
      (e : SinkEvent P) (es : List (SinkEvent P))
      → (appended (e ∷ es) ≡ appended (e ∷ []) + appended es)
        × (settlements (e ∷ es) ≡ settlements (e ∷ []) + settlements es)
        × (errors (e ∷ es) ≡ errors (e ∷ []) ++ errors es)
  counted (append kind params) es = (omega arith, omega arith, refl)
  counted (fulfil id) es = (omega arith, omega arith, refl)
  counted (reject id error) es = (omega arith, omega arith, refl)
  counted (finally id) es = (omega arith, omega arith, refl)

  after_events-Tallies :
      (sink sink' : RpcSink P) (es : List (SinkEvent P))
      → after_events sink es ≡ some sink'
      → Tallies sink es sink'
  unfolding after_events
  after_events-Tallies sink sink' [] e =
      let same : sink ≡ sink' = cc e in
      subst (Tallies sink []) same
        (record { balance = refl; kept = sym (append-nil (recorded sink)) })
  after_events-Tallies sink sink' (e ∷ es) run = elim (Option-cases (on_event sink e)) [
    | inl stuck ↦ cc (rw (stuck, after_events) at run)
    | inr (mid, there) ↦
        let one = on_event-Tallies sink mid e there in
        let more = after_events-Tallies mid sink' es (rw (there, after_events) at run) in
        let (a, b, c) = counted e es in
        record {
          balance = omega (arith, one.balance, more.balance, a, b);
          kept =
              more.kept
              ∙ ap (λ l. l ++ errors es) one.kept
              ∙ append_assoc (recorded sink) (errors (e ∷ [])) (errors es)
              ∙ ap (λ l. recorded sink ++ l) (sym c);
        }
  ]

  flush-cases :
      (what unit : String) (sink : RpcSink P) {r : Flushed}
      → flush what unit sink ≡ some r
      → (sink.pending ≡ []) × ((r ≡ resolves) ↔ (recorded sink ≡ []))
  unfolding flush
  flush-cases what unit sink {r} e = elim (list-cases sink.pending) [
    | inr (w, ws, waiting) ↦ cc (rw (waiting, flush) at e)
    | inl none_left ↦ elim (list-cases sink.failures) [
      | inl clean ↦ (
        none_left,
        (λ _. rw clean refl, λ _. cc (rw (clean, flush) at (rw (none_left, flush) at e))),
      )
      | inr (f, fs, failed) ↦
          let raised = rw (failed, flush) at (rw (none_left, flush) at e) in
          (none_left, (λ ok. cc (raised, ok), λ h. cc (rw failed at h)))
    ]
  ]

  -- When flush ends, every write that was appended has been fulfilled or rejected, the recorded errors
  -- are those of the rejected writes, in order, and flush resolves exactly when no write was rejected.
  pub flush-Tallies :
      (what unit : String) (sink : RpcSink P) (es : List (SinkEvent P)) (r : Flushed)
      → after_events new_sink es ≡ some sink
      → flush what unit sink ≡ some r
      → (appended es ≡ settlements es)
        × (recorded sink ≡ errors es)
        × ((r ≡ resolves) ↔ (errors es ≡ []))
  flush-Tallies what unit sink es r run e =
      let t = after_events-Tallies new_sink sink es run in
      let (drained, resolution) = flush-cases what unit sink e in
      let balance = rw drained at t.balance in
      (
        omega (arith, balance),
        t.kept,
        (λ ok. sym t.kept ∙ resolution.0 ok, λ h. resolution.1 (t.kept ∙ h)),
      )
