-- ===== src/Effects/Later.antt =====
-- A later state of a run: what was handed to the emitters is still there, what came after it stands
-- behind it, and the tree has spent no less.
use dream_team.Prelude.{
  String, ◌≤◌, ◌≡◌, refl, sym, ap, ◌∙◌, List, [], ◌∷◌, ◌++◌, All, All-append, arith,
}
use mathlib.Core.List.{append_assoc, append-nil}
use dream_team.Trace.{TraceEvent}
use dream_team.Packets.Failure.{FailurePacket}
use dream_team.Artifacts.Types.{ArtifactRecord}
use dream_team.Effects.{Result, ok, err, Session, M, resume, ◌>>=◌, emit_trace, emit_failure, warn}
use dream_team.Effects.Settled.{IsCalmRun}

-- A list that begins with another.
abbrev pub Prefix : {A : Type 0} → List A → List A → Type 0
Prefix {A} xs ys = (new : List A) × (ys ≡ xs ++ new)

pub Prefix-refl : {A : Type 0} (xs : List A) → Prefix xs xs
Prefix-refl xs = ([], sym (append-nil xs))

Prefix-trans : {A : Type 0} (xs ys zs : List A) → Prefix xs ys → Prefix ys zs → Prefix xs zs
Prefix-trans xs ys zs (news, e) (later, f) =
    (news ++ later, f ∙ ap (λ l. l ++ later) e ∙ append_assoc xs news later)

-- The same, where `P` holds of each element that came.
abbrev pub Grown : {A : Type 0} → (A → Type 0) → List A → List A → Type 0
Grown {A} P xs ys = (new : List A) × (ys ≡ xs ++ new) × All P new

pub Grown-refl : {A : Type 0} (P : A → Type 0) (xs : List A) → Grown P xs xs
Grown-refl P xs = ([], sym (append-nil xs), tt)

Grown-trans :
    {A : Type 0} (P : A → Type 0) (xs ys zs : List A)
    → Grown P xs ys
    → Grown P ys zs
    → Grown P xs zs
Grown-trans P xs ys zs (news, e, p) (later, f, q) = (
  news ++ later,
  f ∙ ap (λ l. l ++ later) e ∙ append_assoc xs news later,
  All-append P news later p q,
)

-- `P` holds of each artifact record that came.
module _ {W : Type 0} (P : ArtifactRecord → Type 0) where
  pub record IsLater (s s' : Session W) : Type 0 where
    pub spend : s.tree_spend ≤ s'.tree_spend
    pub trace : Prefix s.trace s'.trace
    pub packets : Prefix s.packets s'.packets
    pub artifacts : Grown P s.artifacts s'.artifacts

  pub IsLater-refl : (s : Session W) → IsLater s s
  IsLater-refl s = record {
    spend = omega arith;
    trace = Prefix-refl s.trace;
    packets = Prefix-refl s.packets;
    artifacts = Grown-refl P s.artifacts;
  }

  pub IsLater-trans : (s s₁ s₂ : Session W) → IsLater s s₁ → IsLater s₁ s₂ → IsLater s s₂
  IsLater-trans s s₁ s₂ h k = record {
    spend = omega (arith, h.spend, k.spend);
    trace = Prefix-trans _ _ _ h.trace k.trace;
    packets = Prefix-trans _ _ _ h.packets k.packets;
    artifacts = Grown-trans P _ _ _ h.artifacts k.artifacts;
  }

  pub IsLater-world : (s : Session W) (w : W) → IsLater s (record s { world = w })
  IsLater-world s w = record {
    spend = omega arith;
    trace = Prefix-refl s.trace;
    packets = Prefix-refl s.packets;
    artifacts = Grown-refl P s.artifacts;
  }

  abbrev pub Keeps : {A : Type 0} → M W A → Type 0
  Keeps m = (s : Session W) → IsLater s (m s).1

  module _ {A B : Type 0} where
    resume-IsLater :
        (f : A → M W B) (r : Result A) (s s₁ : Session W)
        → IsLater s s₁
        → ((a : A) → Keeps (f a))
        → IsLater s (resume r f s₁).1
    resume-IsLater f (ok a) s s₁ h k = IsLater-trans s s₁ _ h (k a s₁)
    resume-IsLater f (err e) s s₁ h k = h

    pub Keeps-bind :
        (m : M W A) (f : A → M W B) → Keeps m → ((a : A) → Keeps (f a)) → Keeps (m >>= f)
    Keeps-bind m f h k s = resume-IsLater f (m s).0 s (m s).1 (h s) k

  pub IsCalmRun-IsLater :
      {A : Type 0} (D : Type 0) (s : Session W) (x : Result A × Session W)
      → IsCalmRun D s x
      → IsLater s x.1
  IsCalmRun-IsLater D s x (h, e) = rw e (IsLater-world s x.1.world)

  pub emit_trace-Keeps : (e : TraceEvent) → Keeps (emit_trace e)
  emit_trace-Keeps e s = record {
    spend = omega arith;
    trace = (e ∷ [], refl);
    packets = Prefix-refl s.packets;
    artifacts = Grown-refl P s.artifacts;
  }

  pub warn-Keeps : (text : String) → Keeps (warn text)
  warn-Keeps text s = record {
    spend = omega arith;
    trace = Prefix-refl s.trace;
    packets = Prefix-refl s.packets;
    artifacts = Grown-refl P s.artifacts;
  }

  pub emit_failure-Keeps : (p : FailurePacket) → Keeps (emit_failure p)
  emit_failure-Keeps p s = record {
    spend = omega arith;
    trace = Prefix-refl s.trace;
    packets = (p ∷ [], refl);
    artifacts = Grown-refl P s.artifacts;
  }
