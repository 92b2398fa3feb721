-- ===== src/Effects/Settled.antt =====
-- An action that returns or throws, if `D` is empty, from whatever state it starts in.
use dream_team.Prelude.{◌≡◌, refl, ap, ◌∙◌}
use dream_team.Effects.{
  resume, thrown, out_of_fuel, ok, err, Result, Session, M, Attempt, call, ◌>>=◌,
}
use dream_team.Effects.Outcome.{After, Holds, After-bind, After-call}

module _ {W : Type 0} (D : Type 0) where
  abbrev pub Settles : {A : Type 0} → M W A → Type 0
  Settles m = (s : Session W) → After D (λ _ _. Unit) m s

  module _ {A B : Type 0} where
    pub Settles-bind :
        (m : M W A) (f : A → M W B) → Settles m → ((a : A) → Settles (f a)) → Settles (m >>= f)
    Settles-bind m f h k s = After-bind D (λ _ _. Unit) (λ _ _. Unit) m f s (h s) (λ a s' _. k a s')

    pub Settles-call :
        (g : W → Attempt A × W) (f : A → M W B) → ((a : A) → Settles (f a)) → Settles (call g >>= f)
    Settles-call g f h = Settles-bind (call g) f (λ s. After-call D (λ _ _. Unit) g s (λ v. tt)) h

-- It returns or throws, if `D` is empty, and has changed nothing but the world.
module _ {W : Type 0} (D : Type 0) where
  abbrev pub IsCalmRun : {A : Type 0} → Session W → Result A × Session W → Type 0
  IsCalmRun s x = Holds D (λ _ _. Unit) x.0 x.1 × (x.1 ≡ record s { world = x.1.world })

  abbrev pub Calm : {A : Type 0} → M W A → Type 0
  Calm m = (s : Session W) → IsCalmRun s (m s)

  module _ {A B : Type 0} where
    resume-Calm :
        (f : A → M W B) (r : Result A) (s s₁ : Session W)
        → IsCalmRun s (r, s₁)
        → ((a : A) → Calm (f a))
        → IsCalmRun s (resume r f s₁)
    resume-Calm f (ok a) s s₁ (h, e) k =
        ((k a s₁).0, (k a s₁).1 ∙ ap (λ (t : Session W). record t { world = (f a s₁).1.world }) e)
    resume-Calm f (err (thrown x)) s s₁ (h, e) k = (tt, e)
    resume-Calm f (err out_of_fuel) s s₁ (h, e) k = (h, e)

    pub Calm-bind : (m : M W A) (f : A → M W B) → Calm m → ((a : A) → Calm (f a)) → Calm (m >>= f)
    Calm-bind m f h k s = resume-Calm f (m s).0 s (m s).1 (h s) k

    pub Calm-call :
        (g : W → Attempt A × W) (f : A → M W B) → ((a : A) → Calm (f a)) → Calm (call g >>= f)
    Calm-call g f h = Calm-bind (call g) f (λ s. (After-call D (λ _ _. Unit) g s (λ v. tt), refl)) h
