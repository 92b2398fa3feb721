-- ===== src/Effects.antt =====
-- What a run does besides computing a value: it may throw, and it changes the state that its parts
-- share. The state is the outside world `W`, which only code outside this repository reads and
-- writes, the tree-wide spend of a run and its sub-agents (RunLoopOptions.treeSpend of
-- runtime/src/loop/run-loop.ts, one object for the whole tree), and the records handed to the
-- emitters, in order. An awaited call is a call; what was done before a throw stays done.
pub mod Outcome
pub mod Settled
pub mod Later
use dream_team.Prelude.{ℕ, String, Option, none, List, [], ◌∷◌, ◌++◌}
use dream_team.Trace.{TraceEvent}
use dream_team.Packets.Failure.{FailurePacket}
use dream_team.Artifacts.Types.{ArtifactRecord}

-- An exception: an `Error` with its name, its errno or connector code, and its message.
pub record JsError : Type 0 where
  pub name : String
  pub code : Option String
  pub message : String

-- `out_of_fuel` marks a loop of the model that its bound cut short.
pub data Fault : Type 0 where
  thrown : JsError → Fault
  out_of_fuel : Fault

pub data Result {ℓ} (A : Type ℓ) : Type ℓ where
  ok : A → Result A
  err : Fault → Result A

-- The answer of code outside the repository.
pub data Attempt {ℓ} (A : Type ℓ) : Type ℓ where
  returns : A → Attempt A
  throws : JsError → Attempt A

pub record Session (W : Type 0) : Type 0 where
  pub world : W
  pub tree_spend : ℕ
  pub trace : List TraceEvent
  pub packets : List FailurePacket
  pub artifacts : List ArtifactRecord
  pub warnings : List String

abbrev pub M : Type 0 → Type 0 → Type 0
M W A = Session W → Result A × Session W

abbrev pub of_attempt : {A : Type 0} → Attempt A → Result A
of_attempt (returns a) = ok a
of_attempt (throws e) = err (thrown e)

abbrev pub after_call : {W A B : Type 0} → Attempt A → (A → W → Attempt B × W) → W → Attempt B × W
after_call (throws e) g w = (throws e, w)
after_call (returns a) g w = g a w

-- One call of code outside the repository after another.
abbrev pub then_call :
    {W A B : Type 0} → (W → Attempt A × W) → (A → W → Attempt B × W) → W → Attempt B × W
then_call f g w = after_call (f w).0 g (f w).1

module _ {W : Type 0} where
  abbrev pub resume : {A B : Type 0} → Result A → (A → M W B) → M W B
  resume (ok a) f s = f a s
  resume (err e) f s = (err e, s)

  infixl 5 ◌>>=◌ ◌>>◌
  abbrev pub ◌>>=◌ : {A B : Type 0} → M W A → (A → M W B) → M W B
  ◌>>=◌ m f s = resume (m s).0 f (m s).1

  abbrev pub ◌>>◌ : {A B : Type 0} → M W A → M W B → M W B
  m >> n = m >>= λ _. n

  abbrev pub pure : {A : Type 0} → A → M W A
  pure a s = (ok a, s)

  abbrev pub throw : {A : Type 0} → JsError → M W A
  throw e s = (err (thrown e), s)

  -- A call of code outside the repository.
  abbrev pub call : {A : Type 0} → (W → Attempt A × W) → M W A
  call f s = (of_attempt (f s.world).0, record s { world = (f s.world).1 })

  -- `try { ... } catch (err) { ... }` round such a call.
  abbrev pub attempt : {A : Type 0} → (W → Attempt A × W) → M W (Attempt A)
  attempt f s = (ok (f s.world).0, record s { world = (f s.world).1 })

  -- `emitter.emit(event)`, `failureEmitter.emit(packet)`, `console.warn(text)`
  abbrev pub emit_trace : TraceEvent → M W (Unit {0})
  emit_trace e s = (ok tt, record s { trace = s.trace ++ e ∷ [] })

  abbrev pub emit_failure : FailurePacket → M W (Unit {0})
  emit_failure p s = (ok tt, record s { packets = s.packets ++ p ∷ [] })

  abbrev pub warn : String → M W (Unit {0})
  warn text s = (ok tt, record s { warnings = s.warnings ++ text ∷ [] })

-- `new Error(message)`
abbrev pub plain_error : String → JsError
plain_error message = record { name = "Error"; code = none; message = message }

abbrev pub type_error : String → JsError
type_error message = record { name = "TypeError"; code = none; message = message }
