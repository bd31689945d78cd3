-- ===== src/Exec.antt =====
-- Calls that change a state and may raise: what was written before an exception stays written.
-- `try_except` and `finally` are Python's statements.
pub mod Triple
use safe_cloud.Prelude.{Bool, if◌then◌else◌}

pub data Exn : Type 0 where
  db_error value_error os_error other_error : Exn

pub data Result (A : Type 0) : Type 0 where
  ok : A → Result A
  raised : Exn → Result A

abbrev pub Exec : Type 0 → Type 0 → Type 0
Exec S A = S → Result A × S

module _ {S A : Type 0} where
  unfoldable pub pure : A → Exec S A
  pure a s = (ok a, s)

  unfoldable pub raise : Exn → Exec S A
  raise x s = (raised x, s)

  unfoldable pub gets : (S → A) → Exec S A
  gets f s = (ok (f s), s)

  abbrev pub recover : Result A → S → (Exn → Exec S A) → Result A × S
  recover (ok a) s handler = (ok a, s)
  recover (raised x) s handler = handler x s

  -- `try: m except: handler`
  unfoldable pub try_except : Exec S A → (Exn → Exec S A) → Exec S A
  try_except m handler s = let (r, t) = m s in recover r t handler

unfoldable pub modify : {S : Type 0} → (S → S) → Exec S (Unit {0})
modify f s = (ok tt, f s)

module _ {S A B : Type 0} where
  abbrev pub continue : Result A → S → (A → Exec S B) → Result B × S
  continue (ok a) s f = f a s
  continue (raised x) s f = (raised x, s)

  infixl 5 ◌>>=◌
  unfoldable pub ◌>>=◌ : Exec S A → (A → Exec S B) → Exec S B
  ◌>>=◌ m f s = let (r, t) = m s in continue r t f

infixl 5 ◌>>◌
abbrev pub ◌>>◌ : {S B : Type 0} → Exec S (Unit {0}) → Exec S B → Exec S B
m >> n = m >>= λ _. n

-- `if test: m`
abbrev pub when : {S : Type 0} → Bool → Exec S (Unit {0}) → Exec S (Unit {0})
when b m = if b then m else pure tt
