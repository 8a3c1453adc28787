-- ===== src/Prelude/Exec.antt =====
-- Methods that change a state and may fail: what was changed before a failure stays changed. A
-- panic is an outcome of its own.
use mathlib.Core.Path.{◌≡◌, refl, ap}

pub data Outcome (E A : Type 0) : Type 0 where
  done : A → Outcome E A
  fail : E → Outcome E A
  panic : Outcome E A

abbrev pub Exec : Type 0 → Type 0 → Type 0 → Type 0
Exec S E A = S → Outcome E A × S

module _ {S E A : Type 0} where
  abbrev pub pure : A → Exec S E A
  pure a s = (done a, s)

  abbrev pub raise : E → Exec S E A
  raise e s = (fail e, s)

  abbrev pub abort : Exec S E A
  abort s = (panic, s)

module _ {S E A B : Type 0} where
  abbrev pub continue : (A → Exec S E B) → Outcome E A × S → Outcome E B × S
  continue f (done a, s) = f a s
  continue f (fail e, s) = (fail e, s)
  continue f (panic, s) = (panic, s)

  infixl 5 ◌>>=◌ ◌>>◌
  abbrev pub ◌>>=◌ : Exec S E A → (A → Exec S E B) → Exec S E B
  ◌>>=◌ m f s = continue f (m s)

  abbrev pub ◌>>◌ : Exec S E A → Exec S E B → Exec S E B
  ◌>>◌ m n s = continue (λ _. n) (m s)

-- A step that succeeds hands its value and state to what follows.
pub bind-done :
    {S E A B : Type 0} (f : A → Exec S E B) {r : Outcome E A × S} {s : S} {a : A}
    → r ≡ (done a, s)
    → continue f r ≡ f a s
bind-done f e = ap (continue f) e

module _ {S E A B : Type 0} where
  pub continue_ext :
      (f g : A → Exec S E B) (r : Outcome E A × S)
      → ((a : A) (s : S) → f a s ≡ g a s)
      → continue f r ≡ continue g r
  continue_ext f g (done a, s) h = h a s
  continue_ext f g (fail e, s) h = refl
  continue_ext f g (panic, s) h = refl

module _ {S E A B C : Type 0} where
  pub continue_assoc :
      (f : A → Exec S E B) (g : B → Exec S E C) (r : Outcome E A × S)
      → continue g (continue f r) ≡ continue (λ a s. continue g (f a s)) r
  continue_assoc f g (done a, s) = refl
  continue_assoc f g (fail e, s) = refl
  continue_assoc f g (panic, s) = refl

module _ {S E : Type 0} where
  pub continue-pure : (r : Outcome E (Unit {0}) × S) → continue (λ _. pure tt) r ≡ r
  continue-pure (done a, s) = refl
  continue-pure (fail e, s) = refl
  continue-pure (panic, s) = refl
