-- ===== src/Exec/Triple.antt =====
-- Pre- and postconditions of calls: `Q` of the result and the state where the call returns, `E` of
-- the state where it raises. `Keeps P m` is the case where all three are one invariant.
use safe_cloud.Prelude.{Bool, true, false, ◌≡◌, refl, if◌then◌else◌}
use safe_cloud.Exec.{
  Exn, Result, ok, raised, Exec, pure, raise, gets, modify, recover, try_except, continue, ◌>>=◌,
}

module _ {S A : Type 0} where
  abbrev pub Post : (A → S → Type 0) → (S → Type 0) → Result A → S → Type 0
  Post Q E (ok a) s = Q a s
  Post Q E (raised x) s = E s

  pub record Triple (P : S → Type 0) (m : Exec S A) (Q : A → S → Type 0) (E : S → Type 0)
      : Type 0 where
    pub run : (s : S) → P s → Post Q E (m s).0 (m s).1

  pub record Keeps (P : S → Type 0) (m : Exec S A) : Type 0 where
    pub run : (s : S) → P s → P (m s).1

  Post-same : (P : S → Type 0) (r : Result A) (s : S) → P s → Post (λ _. P) P r s
  Post-same P (ok a) s h = h
  Post-same P (raised x) s h = h

  Post-weaken :
      (Q Q' : A → S → Type 0) (E E' : S → Type 0) (r : Result A) (s : S)
      → ((a : A) (t : S) → Q a t → Q' a t)
      → ((t : S) → E t → E' t)
      → Post Q E r s
      → Post Q' E' r s
  Post-weaken Q Q' E E' (ok a) s f g h = f a s h
  Post-weaken Q Q' E E' (raised x) s f g h = g s h

  pub Triple_of_Keeps : {P : S → Type 0} {m : Exec S A} → Keeps P m → Triple P m (λ _. P) P
  Triple_of_Keeps {P} {m} k = record { run = λ s h. Post-same P (m s).0 (m s).1 (k.run s h) }

  pub Keeps-Post : (P : S → Type 0) (r : Result A) (s : S) → Post (λ _. P) P r s → P s
  Keeps-Post P (ok a) s h = h
  Keeps-Post P (raised x) s h = h

  pub Triple-Keeps : {P : S → Type 0} {m : Exec S A} → Triple P m (λ _. P) P → Keeps P m
  Triple-Keeps {P} {m} t = record { run = λ s h. Keeps-Post P (m s).0 (m s).1 (t.run s h) }

  pub Triple-weaken :
      {P P' : S → Type 0} {m : Exec S A} {Q Q' : A → S → Type 0} {E E' : S → Type 0}
      → ((s : S) → P' s → P s)
      → ((a : A) (s : S) → Q a s → Q' a s)
      → ((s : S) → E s → E' s)
      → Triple P m Q E
      → Triple P' m Q' E'
  Triple-weaken {m} {Q} {Q'} {E} {E'} p q e t = record {
    run = λ s h. Post-weaken Q Q' E E' (m s).0 (m s).1 q e (t.run s (p s h));
  }

  pub Triple-pure :
      {P : S → Type 0} {Q : A → S → Type 0} {E : S → Type 0} (a : A)
      → ((s : S) → P s → Q a s)
      → Triple P (pure a) Q E
  unfolding pure
  Triple-pure a f = record { run = f }

  pub Triple-raise :
      {P : S → Type 0} {Q : A → S → Type 0} {E : S → Type 0} (x : Exn)
      → ((s : S) → P s → E s)
      → Triple P (raise {A = A} x) Q E
  unfolding raise
  Triple-raise x f = record { run = f }

  pub Triple-gets :
      {P : S → Type 0} {Q : A → S → Type 0} {E : S → Type 0} (f : S → A)
      → ((s : S) → P s → Q (f s) s)
      → Triple P (gets f) Q E
  unfolding gets
  Triple-gets f g = record { run = g }

  Post-recover :
      {Q : A → S → Type 0} {E E' : S → Type 0} (r : Result A) (s : S) (handler : Exn → Exec S A)
      → ((x : Exn) → Triple E' (handler x) Q E)
      → Post Q E' r s
      → Post Q E (recover r s handler).0 (recover r s handler).1
  Post-recover (ok a) s handler f h = h
  Post-recover (raised x) s handler f h = (f x).run s h

  pub Triple-try_except :
      {P : S → Type 0} {Q : A → S → Type 0} {E E' : S → Type 0} (m : Exec S A)
      (handler : Exn → Exec S A)
      → Triple P m Q E'
      → ((x : Exn) → Triple E' (handler x) Q E)
      → Triple P (try_except m handler) Q E
  unfolding try_except
  Triple-try_except m handler t f = record {
    run = λ s h. Post-recover (m s).0 (m s).1 handler f (t.run s h);
  }

  pub Triple-if :
      {P : S → Type 0} {Q : A → S → Type 0} {E : S → Type 0} (b : Bool) (m n : Exec S A)
      → (b ≡ true → Triple P m Q E)
      → (b ≡ false → Triple P n Q E)
      → Triple P (if b then m else n) Q E
  Triple-if true m n f g = f refl
  Triple-if false m n f g = g refl

pub Triple-modify :
    {S : Type 0} {P : S → Type 0} {Q : Unit {0} → S → Type 0} {E : S → Type 0} (f : S → S)
    → ((s : S) → P s → Q tt (f s))
    → Triple P (modify f) Q E
unfolding modify
Triple-modify f g = record { run = g }

module _ {S A B : Type 0} where
  Post-continue :
      {Q : A → S → Type 0} {R : B → S → Type 0} {E : S → Type 0} (r : Result A) (s : S)
      (f : A → Exec S B)
      → ((a : A) → Triple (Q a) (f a) R E)
      → Post Q E r s
      → Post R E (continue r s f).0 (continue r s f).1
  Post-continue (ok a) s f t h = (t a).run s h
  Post-continue (raised x) s f t h = h

  pub Triple-bind :
      {P : S → Type 0} {Q : A → S → Type 0} {R : B → S → Type 0} {E : S → Type 0} (m : Exec S A)
      (f : A → Exec S B)
      → Triple P m Q E
      → ((a : A) → Triple (Q a) (f a) R E)
      → Triple P (m >>= f) R E
  unfolding ◌>>=◌
  Triple-bind m f t u = record { run = λ s h. Post-continue (m s).0 (m s).1 f u (t.run s h) }

-- The rules for one invariant, in the form that `search` applies.
module _ {S : Type 0} {P : S → Type 0} where
  pub Keeps-pure : {A : Type 0} (a : A) → Keeps P (pure a)
  unfolding pure
  Keeps-pure a = record { run = λ s h. h }

  pub Keeps-raise : {A : Type 0} (x : Exn) → Keeps P (raise {A = A} x)
  unfolding raise
  Keeps-raise x = record { run = λ s h. h }

  pub Keeps-gets : {A : Type 0} (f : S → A) → Keeps P (gets f)
  unfolding gets
  Keeps-gets f = record { run = λ s h. h }

  pub Keeps-modify : (f : S → S) → ((s : S) → P s → P (f s)) → Keeps P (modify f)
  unfolding modify
  Keeps-modify f g = record { run = g }

  pub Keeps-if :
      {A : Type 0} (b : Bool) (m n : Exec S A)
      → Keeps P m
      → Keeps P n
      → Keeps P (if b then m else n)
  Keeps-if true m n f g = f
  Keeps-if false m n f g = g

  pub Keeps-bind :
      {A B : Type 0} (m : Exec S A) (f : A → Exec S B)
      → Keeps P m
      → ((a : A) → Keeps P (f a))
      → Keeps P (m >>= f)
  Keeps-bind m f k u =
      Triple-Keeps (Triple-bind m f (Triple_of_Keeps k) (λ a. Triple_of_Keeps (u a)))

  pub Keeps-try_except :
      {A : Type 0} (m : Exec S A) (handler : Exn → Exec S A)
      → Keeps P m
      → ((x : Exn) → Keeps P (handler x))
      → Keeps P (try_except m handler)
  Keeps-try_except m handler k u =
      Triple-Keeps (Triple-try_except m handler (Triple_of_Keeps k) (λ x. Triple_of_Keeps (u x)))

pub ruleset keeps_rules =
    (Keeps-pure, Keeps-raise, Keeps-gets, Keeps-if, Keeps-bind, Keeps-try_except)
