-- ===== src/Base/Action.antt =====
-- Methods that mutate an object and may raise. What was written before a raise stays written, so
-- the state comes back beside the exception too.
use mathlib.Core.Path.{◌≡◌, refl, sym, ap, ◌∙◌}
use mathlib.Core.Logic.{◌⊎◌, inl, inr}
use mathlib.Core.Bool.{Bool}
use mathlib.Core.Option.{Option, none, some}
use native.Mathlib.Omega.{arith}
use ai_coding_training.Base.Tests.{if◌then◌else◌}

pub data Outcome (E A : Type 0) : Type 0 where
  ok : A → Outcome E A
  raised : E → Outcome E A

abbrev pub Action : Type 0 → Type 0 → Type 0 → Type 0
Action S E A = S → Outcome E A × S

module _ {S E A : Type 0} where
  abbrev pub pure : A → Action S E A
  pure a s = (ok a, s)

  abbrev pub raise : E → Action S E A
  raise e s = (raised e, s)

  abbrev pub gets : (S → A) → Action S E A
  gets f s = (ok (f s), s)

  -- The value of a key, or a raise on a missing one.
  abbrev pub or_raise : Option A → E → Action S E A
  or_raise none e = raise e
  or_raise (some a) e = pure a

module _ {S E : Type 0} where
  abbrev pub modify : (S → S) → Action S E Unit
  modify f s = (ok tt, f s)

  abbrev pub raise_if : Bool → E → Action S E Unit
  raise_if b e s = (if b then raised e else ok tt, s)

infixl 5 ◌>>=◌ ◌>>◌
abbrev pub ◌>>=◌ : {S E A B : Type 0} → Action S E A → (A → Action S E B) → Action S E B
◌>>=◌ m f s = let (r, s') = m s in elim r [ ok a ↦ f a s' | raised e ↦ (raised e, s') ]

abbrev pub ◌>>◌ : {S E A B : Type 0} → Action S E A → Action S E B → Action S E B
m >> k = m >>= λ _. k

pub Outcome-cases :
    {E A : Type 0} (r : Outcome E A) → ((a : A) × (r ≡ ok a)) ⊎ ((e : E) × (r ≡ raised e))
Outcome-cases (ok a) = inl (a, refl)
Outcome-cases (raised e) = inr (e, refl)

module _ {S E A B : Type 0} (m : Action S E A) (f : A → Action S E B) (s : S) where
  -- A step that returned is followed by the rest of the block.
  pub bind-ok : {a : A} {s' : S} → m s ≡ (ok a, s') → (m >>= f) s ≡ f a s'
  bind-ok h = ground (arith, h)

  -- A step that raised is the end of it.
  pub bind-raised : {e : E} {s' : S} → m s ≡ (raised e, s') → (m >>= f) s ≡ (raised e, s')
  bind-raised h = ground (arith, h)

abbrev pub map_outcome : {E A B : Type 0} → (A → B) → Outcome E A → Outcome E B
map_outcome f (ok a) = ok (f a)
map_outcome f (raised e) = raised e

after_step : {S E A B : Type 0} → (A → B) → Outcome E A × S → Outcome E B × S
after_step f (ok a, s) = (ok (f a), s)
after_step f (raised e, s) = (raised e, s)

after_step-eq :
    {S E A B : Type 0} (f : A → B) (p : Outcome E A × S) → after_step f p ≡ (map_outcome f p.0, p.1)
unfolding after_step
after_step-eq f (ok a, s) = refl
after_step-eq f (raised e, s) = refl

-- A step whose result is only changed afterwards.
pub bind-pure :
    {S E A B : Type 0} (m : Action S E A) (f : A → B) (s : S)
    → (m >>= λ a. pure (f a)) s ≡ (map_outcome f (m s).0, (m s).1)
unfolding after_step
bind-pure m f s = ground (arith, after_step-eq f (m s))

-- Three steps are one after the other, however they are grouped.
pub bind_assoc :
    {S E A B C : Type 0} (m : Action S E A) (f : A → Action S E B) (g : B → Action S E C) (s : S)
    → ((m >>= f) >>= g) s ≡ (m >>= λ a. f a >>= g) s
bind_assoc m f g s = ground arith

-- What a step gave, by its outcome.
pub Action-cases :
    {S E A : Type 0} (m : Action S E A) (s : S)
    → ((a : A) × (m s ≡ (ok a, (m s).1))) ⊎ ((e : E) × (m s ≡ (raised e, (m s).1)))
Action-cases m s = elim (Outcome-cases (m s).0) [
  | inl (a, h) ↦ inl (a, ap (λ o. (o, (m s).1)) h)
  | inr (e, h) ↦ inr (e, ap (λ o. (o, (m s).1)) h)
]

-- What is the same for every value of the first step is the same after it.
pub bind-eq :
    {S E A B : Type 0} (m : Action S E A) (f g : A → Action S E B) (s : S)
    → ((a : A) (s' : S) → f a s' ≡ g a s')
    → (m >>= f) s ≡ (m >>= g) s
bind-eq m f g s h = elim (Action-cases m s) [
  | inl (a, e) ↦ bind-ok m f s e ∙ h a (m s).1 ∙ sym (bind-ok m g s e)
  | inr (x, e) ↦ bind-raised m f s e ∙ sym (bind-raised m g s e)
]

-- Steps that give the same at a state may stand for each other there.
pub bind_cong :
    {S E A B : Type 0} (m n : Action S E A) (f : A → Action S E B) (s : S)
    → m s ≡ n s
    → (m >>= f) s ≡ (n >>= f) s
bind_cong m n f s h = ground (arith, h)

pub bind_pure : {S E A : Type 0} (m : Action S E A) (s : S) → (m >>= pure) s ≡ m s
bind_pure m s = ground arith

-- Whatever the action raises satisfies `P`.
abbrev pub Raises : {S E A : Type 0} → (E → Type 0) → Action S E A → Type 0
Raises {S} {E} P m = (s : S) (e : E) → (m s).0 ≡ raised e → P e

raised-eq : {E A : Type 0} {x e : E} → ◌≡◌ {A = Outcome E A} (raised x) (raised e) → x ≡ e
raised-eq h = cc

pub bind-Raises :
    {S E A B : Type 0} (P : E → Type 0) (m : Action S E A) (f : A → Action S E B)
    → Raises P m
    → ((a : A) → Raises P (f a))
    → Raises P (m >>= f)
bind-Raises P m f hm hf s e h = elim (Action-cases m s) [
  | inl (a, x) ↦ hf a (m s).1 e (ap (λ p. p.0) (sym (bind-ok m f s x)) ∙ h)
  | inr (x, y) ↦
      let same : raised x ≡ raised e = ap (λ p. p.0) (sym (bind-raised m f s y)) ∙ h in
      rw (← raised-eq same) (hm s x (ap (λ p. p.0) y))
]
