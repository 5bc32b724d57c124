-- ===== src/Base/Keeps.antt =====
-- Properties of a state that every outcome of an action leaves true, raises included.
use ai_coding_training.Base.{
  ◌≡◌, ap, sym, ◌∙◌, Bool, true, false, Option, none, some, if◌then◌else◌, inl, inr,
}
use ai_coding_training.Base.Action.{
  Outcome, ok, raised, Action, pure, gets, modify, raise, raise_if, or_raise, ◌>>=◌, ◌>>◌,
  Action-cases, bind-ok, bind-raised,
}

pub record Keeps {S E A : Type 0} (P : S → Type 0) (m : Action S E A) : Type 0 where
  pub after : (s : S) → P s → P (m s).1

module _ {S : Type 0} {P : S → Type 0} where
  pub pure-Keeps : {E A : Type 0} (a : A) → Keeps P (pure {S = S} {E = E} a)
  pure-Keeps a = record { after = λ s h. h }

  pub raise-Keeps : {E A : Type 0} (e : E) → Keeps {A = A} P (raise e)
  raise-Keeps e = record { after = λ s h. h }

  pub gets-Keeps : {E A : Type 0} (f : S → A) → Keeps {E = E} P (gets f)
  gets-Keeps f = record { after = λ s h. h }

  pub raise_if-Keeps : {E : Type 0} (b : Bool) (e : E) → Keeps P (raise_if b e)
  raise_if-Keeps b e = record { after = λ s h. h }

  pub or_raise-Keeps : {E A : Type 0} (o : Option A) (e : E) → Keeps P (or_raise o e)
  or_raise-Keeps none e = record { after = λ s h. h }
  or_raise-Keeps (some a) e = record { after = λ s h. h }

  pub modify-Keeps :
      {E : Type 0} (f : S → S) → ((s : S) → P s → P (f s)) → Keeps {E = E} P (modify f)
  modify-Keeps f h = record { after = h }

  pub if-Keeps :
      {E A : Type 0} (b : Bool) {m n : Action S E A}
      → Keeps P m
      → Keeps P n
      → Keeps P (if b then m else n)
  if-Keeps true hm hn = hm
  if-Keeps false hm hn = hn

  pub option-Keeps :
      {E A B : Type 0} (o : Option B) {m : Action S E A} {f : B → Action S E A}
      → Keeps P m
      → ((b : B) → Keeps P (f b))
      → Keeps P (elim o as (λ _. Action S E A) [ none ↦ m | some b ↦ f b ])
  option-Keeps none hm hf = hm
  option-Keeps (some b) hm hf = hf b

  pub bind-Keeps :
      {E A B : Type 0} {m : Action S E A} {f : A → Action S E B}
      → Keeps P m
      → ((a : A) → Keeps P (f a))
      → Keeps P (m >>= f)
  bind-Keeps {m = m} {f = f} hm hf = record {
    after = λ s h. elim (Action-cases m s) [
      | inl (a, e) ↦ rw (bind-ok m f s e) ((hf a).after (m s).1 (hm.after s h))
      | inr (x, e) ↦ rw (bind-raised m f s e) (hm.after s h)
    ];
  }

  pub then-Keeps :
      {E A B : Type 0} {m : Action S E A} {n : Action S E B}
      → Keeps P m
      → Keeps P n
      → Keeps P (m >> n)
  then-Keeps hm hn = bind-Keeps hm (λ a. hn)

-- After a step that returned, its value may be known.
pub bind-after :
    {S E A B : Type 0} (P : S → Type 0) (m : Action S E A) (f : A → Action S E B) (s : S)
    → P (m s).1
    → ((a : A) → (m s).0 ≡ ok a → P (f a (m s).1).1)
    → P ((m >>= f) s).1
bind-after P m f s hm hf = elim (Action-cases m s) [
  | inl (a, e) ↦ rw (bind-ok m f s e) (hf a (ap (λ p. p.0) e))
  | inr (x, e) ↦ rw (bind-raised m f s e) hm
]

-- Every value that the action returns, from a state with `P`, satisfies `Q`.
pub record Gives {S E A : Type 0} (P : S → Type 0) (Q : A → Type 0) (m : Action S E A)
    : Type 0 where
  pub given : (s : S) → P s → (a : A) → (m s).0 ≡ ok a → Q a

pub ok-eq : {E A : Type 0} {a b : A} → ◌≡◌ {A = Outcome E A} (ok a) (ok b) → a ≡ b
ok-eq h = cc

raised-ok : {E A : Type 0} {e : E} {a : A} → ◌≡◌ {A = Outcome E A} (raised e) (ok a) → ⊥
raised-ok h = cc

module _ {S : Type 0} {P : S → Type 0} where
  pub pure-Gives :
      {E A : Type 0} {Q : A → Type 0} (a : A) → Q a → Gives P Q (pure {S = S} {E = E} a)
  pure-Gives a q = record { given = λ s h b e. rw (← ok-eq e) q }

  pub bind-Gives :
      {E A B : Type 0} {Q : A → Type 0} {R : B → Type 0} {m : Action S E A} {f : A → Action S E B}
      → Keeps P m
      → Gives P Q m
      → ((a : A) → Q a → Gives P R (f a))
      → Gives P R (m >>= f)
  bind-Gives {m = m} {f = f} keep give next = record {
    given = λ s h b e. elim (Action-cases m s) [
      | inl (a, x) ↦
          (next a (give.given s h a (ap (λ p. p.0) x))).given (m s).1 (keep.after s h) b
            (ap (λ p. p.0) (sym (bind-ok m f s x)) ∙ e)
      | inr (y, x) ↦ absurd (raised-ok (ap (λ p. p.0) (sym (bind-raised m f s x)) ∙ e))
    ];
  }

  -- A step whose value does not matter.
  pub then-Gives :
      {E A B : Type 0} {R : B → Type 0} {m : Action S E A} {n : Action S E B}
      → Keeps P m
      → Gives P R n
      → Gives P R (m >> n)
  then-Gives keep give =
      bind-Gives {Q = λ a. Unit} keep (record { given = λ s h a e. tt }) (λ a q. give)
