-- ===== src/Effects/Outcome.antt =====
-- What holds after an action: `P` of the value and the state that it returns, nothing where it
-- throws, and `D` where a loop of the model ran out of fuel. With `D` empty the statement says
-- that the fuel is enough.
use dream_team.Prelude.{◌⊎◌, inl, inr, ◌≡◌, refl, subst, Bool, true, false, if◌then◌else◌}
use dream_team.Effects.{
  JsError, thrown, out_of_fuel, Result, ok, err, Session, M, resume, ◌>>=◌, call, Attempt, returns,
  throws, of_attempt,
}

module _ {W A : Type 0} (D : Type 0) (P : A → Session W → Type 0) where
  abbrev pub Holds : Result A → Session W → Type 0
  Holds (ok a) s = P a s
  Holds (err (thrown e)) s = Unit
  Holds (err out_of_fuel) s = D

  abbrev pub After : M W A → Session W → Type 0
  After m s = Holds (m s).0 (m s).1

module _ {W A B : Type 0} (D : Type 0) where
  pub Holds-resume :
      (P : B → Session W → Type 0) (Q : A → Session W → Type 0) (f : A → M W B) (r : Result A)
      (s : Session W)
      → Holds D Q r s
      → ((a : A) (s' : Session W) → Q a s' → After D P (f a) s')
      → Holds D P (resume r f s).0 (resume r f s).1
  Holds-resume P Q f (ok a) s q k = k a s q
  Holds-resume P Q f (err (thrown e)) s q k = tt
  Holds-resume P Q f (err out_of_fuel) s q k = q

  pub After-bind :
      (P : B → Session W → Type 0) (Q : A → Session W → Type 0) (m : M W A) (f : A → M W B)
      (s : Session W)
      → After D Q m s
      → ((a : A) (s' : Session W) → Q a s' → After D P (f a) s')
      → After D P (m >>= f) s
  After-bind P Q m f s q k = Holds-resume P Q f (m s).0 (m s).1 q k

module _ {W A B : Type 0} (D : Type 0) where
  Holds-resume_run :
      (P : B → Session W → Type 0) (f : A → M W B) (r : Result A × Session W)
      → Holds D (λ _ _. Unit) r.0 r.1
      → ((a : A) (s' : Session W) → r ≡ (ok a, s') → After D P (f a) s')
      → Holds D P (resume r.0 f r.1).0 (resume r.0 f r.1).1
  Holds-resume_run P f (ok a, s) h k = k a s refl
  Holds-resume_run P f (err (thrown e), s) h k = tt
  Holds-resume_run P f (err out_of_fuel, s) h k = h

  -- The same with the run of the first action at hand.
  pub After-bind_run :
      (P : B → Session W → Type 0) (m : M W A) (f : A → M W B) (s : Session W)
      → After D (λ _ _. Unit) m s
      → ((a : A) (s' : Session W) → m s ≡ (ok a, s') → After D P (f a) s')
      → After D P (m >>= f) s
  After-bind_run P m f s h k = Holds-resume_run P f (m s) h k

module _ {W A : Type 0} (D : Type 0) where
  -- A weaker statement holds too.
  Holds-mono :
      (P Q : A → Session W → Type 0) (r : Result A) (s : Session W)
      → Holds D P r s
      → ((a : A) (s' : Session W) → P a s' → Q a s')
      → Holds D Q r s
  Holds-mono P Q (ok a) s h k = k a s h
  Holds-mono P Q (err (thrown e)) s h k = tt
  Holds-mono P Q (err out_of_fuel) s h k = h

  pub After-mono :
      (P Q : A → Session W → Type 0) (m : M W A) (s : Session W)
      → After D P m s
      → ((a : A) (s' : Session W) → P a s' → Q a s')
      → After D Q m s
  After-mono P Q m s h k = Holds-mono P Q (m s).0 (m s).1 h k

  pub After-if :
      (P : A → Session W → Type 0) (b : Bool) (m n : M W A) (s : Session W)
      → (b ≡ true → After D P m s)
      → (b ≡ false → After D P n s)
      → After D P (if b then m else n) s
  After-if P true m n s h k = h refl
  After-if P false m n s h k = k refl

  -- Code outside the repository answers or throws.
  After-attempt :
      (a : Attempt A) (P : A → Session W → Type 0) (s : Session W)
      → ((v : A) → P v s)
      → Holds D P (of_attempt a) s
  After-attempt (returns v) P s h = h v
  After-attempt (throws e) P s h = tt

  pub After-call :
      (P : A → Session W → Type 0) (f : W → Attempt A × W) (s : Session W)
      → ((v : A) → P v (record s { world = (f s.world).1 }))
      → After D P (call f) s
  After-call P f s h = After-attempt (f s.world).0 P (record s { world = (f s.world).1 }) h

-- What a returned value and state satisfy.
pub After-eq_ok :
    {W A : Type 0} (D : Type 0) (P : A → Session W → Type 0) (m : M W A) (s s' : Session W) (a : A)
    → After D P m s
    → m s ≡ (ok a, s')
    → P a s'
After-eq_ok D P m s s' a h e = subst (λ r. Holds D P r.0 r.1) e h

-- Code outside the repository returns or throws.
pub attempt-cases :
    {A : Type 0} (a : Attempt A) → ((v : A) × (a ≡ returns v)) ⊎ ((e : JsError) × (a ≡ throws e))
attempt-cases (returns v) = inl (v, refl)
attempt-cases (throws e) = inr (e, refl)
