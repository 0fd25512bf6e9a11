-- ===== src/Base/Hoare.antt =====
-- Statements about effects: from a world with `P`, `m` ends in `Q a` when it returns `a`, and in
-- `E` when it fails or panics.
use Prim.Native.String.{String}
use mathlib.Core.Path.{◌≡◌, refl}
use mathlib.Core.Bool.{Bool, true, false}
use mathlib.Core.Option.{Option, none, some}
use cita_node_operator.Base.Tests.{if◌then◌else◌}
use cita_node_operator.Base.Effects.{Error, Result, ok, err, Outcome, done, failed, panicked, Exec}
use cita_node_operator.Base.Effects.{
  pure, raise, panic, deref, lift, caught, try, continue, ◌>>=◌, when,
}

module _ {W A : Type 0} where
  abbrev pub Post : (A → W → Type 0) → (W → Type 0) → Outcome A × W → Type 0
  Post Q E (done a, w) = Q a w
  Post Q E (failed _, w) = E w
  Post Q E (panicked _, w) = E w

  pub record Triple (P : W → Type 0) (m : Exec W A) (Q : A → W → Type 0) (E : W → Type 0)
      : Type 0 where
    pub run : (w : W) → P w → Post Q E (m w)

  -- `m` keeps `P`, however it ends.
  abbrev pub Keeps : (W → Type 0) → Exec W A → Type 0
  Keeps P m = Triple P m (λ _. P) P

  Post-map :
      {Q R : A → W → Type 0} {E F : W → Type 0}
      → ((a : A) (w : W) → Q a w → R a w)
      → ((w : W) → E w → F w)
      → (o : Outcome A × W) → Post Q E o
      → Post R F o
  Post-map f g (done a, w) h = f a w h
  Post-map f g (failed e, w) h = g w h
  Post-map f g (panicked s, w) h = g w h

  Post-any : (o : Outcome A × W) → Post (λ _ _. Unit) (λ _. Unit) o
  Post-any (done a, w) = tt
  Post-any (failed e, w) = tt
  Post-any (panicked s, w) = tt

  -- Nothing is said of where `m` ends.
  pub Triple-any : {P : W → Type 0} (m : Exec W A) → Triple P m (λ _ _. Unit) (λ _. Unit)
  Triple-any m = record { run = λ w h. Post-any (m w) }

  Post-and :
      (Q R : A → W → Type 0) (E F : W → Type 0) (o : Outcome A × W)
      → Post Q E o
      → Post R F o
      → Post (λ a w. Q a w × R a w) (λ w. E w × F w) o
  Post-and Q R E F (done a, w) h k = (h, k)
  Post-and Q R E F (failed e, w) h k = (h, k)
  Post-and Q R E F (panicked s, w) h k = (h, k)

  pub Triple-and :
      {P O : W → Type 0} {Q R : A → W → Type 0} {E F : W → Type 0} {m : Exec W A}
      → Triple P m Q E
      → Triple O m R F
      → Triple (λ w. P w × O w) m (λ a w. Q a w × R a w) (λ w. E w × F w)
  Triple-and {Q = Q} {R = R} {E = E} {F = F} {m = m} t u = record {
    run = λ w h. Post-and Q R E F (m w) (t.run w h.0) (u.run w h.1);
  }

  module _ {P : W → Type 0} {Q : A → W → Type 0} {E : W → Type 0} where
    pub Triple-pure : (a : A) → ((w : W) → P w → Q a w) → Triple P (pure a) Q E
    Triple-pure a h = record { run = h }

    pub Triple-raise : (e : Error) → ((w : W) → P w → E w) → Triple P (raise e) Q E
    Triple-raise e h = record { run = h }

    pub Triple-panic : (s : String) → ((w : W) → P w → E w) → Triple P (panic s) Q E
    Triple-panic s h = record { run = h }

    pub Triple-lift :
        (r : Result A)
        → ((a : A) → r ≡ ok a → (w : W) → P w → Q a w)
        → ((w : W) → P w → E w)
        → Triple P (lift r) Q E
    Triple-lift (ok a) f g = record { run = λ w h. f a refl w h }
    Triple-lift (err e) f g = record { run = g }

    pub Triple-if :
        (b : Bool) (m n : Exec W A)
        → (b ≡ true → Triple P m Q E)
        → (b ≡ false → Triple P n Q E)
        → Triple P (if b then m else n) Q E
    Triple-if true m n f g = f refl
    Triple-if false m n f g = g refl

    pub Triple-map :
        {R : A → W → Type 0} {F : W → Type 0} {m : Exec W A}
        → Triple P m R F
        → ((a : A) (w : W) → R a w → Q a w)
        → ((w : W) → F w → E w)
        → Triple P m Q E
    Triple-map {m = m} t f g = record { run = λ w h. Post-map f g (m w) (t.run w h) }

    pub Triple-pre :
        {R : W → Type 0} {m : Exec W A} → ((w : W) → P w → R w) → Triple R m Q E → Triple P m Q E
    Triple-pre f t = record { run = λ w h. t.run w (f w h) }

  pub Triple-deref :
      {P : W → Type 0} {Q : A → W → Type 0} {E : W → Type 0} (o : Option A)
      → ((a : A) → o ≡ some a → (w : W) → P w → Q a w)
      → ((w : W) → P w → E w)
      → Triple P (deref o) Q E
  Triple-deref none f g = record { run = g }
  Triple-deref (some a) f g = record { run = f a refl }

module _ {W A B : Type 0} where
  Post-continue :
      {R : A → W → Type 0} (Q : B → W → Type 0) (E : W → Type 0) (f : A → Exec W B)
      → ((a : A) (w : W) → R a w → Post Q E (f a w))
      → (o : Outcome A × W) → Post R E o
      → Post Q E (continue o f)
  Post-continue Q E f k (done a, w) h = k a w h
  Post-continue Q E f k (failed e, w) h = h
  Post-continue Q E f k (panicked s, w) h = h

  pub Triple-bind :
      {P : W → Type 0} {R : A → W → Type 0} {Q : B → W → Type 0} {E : W → Type 0} {m : Exec W A}
      {f : A → Exec W B}
      → Triple P m R E
      → ((a : A) → Triple (R a) (f a) Q E)
      → Triple P (m >>= f) Q E
  Triple-bind {Q = Q} {E = E} {m = m} {f = f} t k = record {
    run = λ w h. Post-continue Q E f (λ a v r. (k a).run v r) (m w) (t.run w h);
  }

module _ {W A : Type 0} where
  abbrev pub Caught : (A → W → Type 0) → (W → Type 0) → Result A → W → Type 0
  Caught Q E (ok a) w = Q a w
  Caught Q E (err _) w = E w

  Post-caught :
      (Q : A → W → Type 0) (E : W → Type 0) (o : Outcome A × W)
      → Post Q E o
      → Post (Caught Q E) E (caught o)
  Post-caught Q E (done a, w) h = h
  Post-caught Q E (failed e, w) h = h
  Post-caught Q E (panicked s, w) h = h

  pub Triple-try :
      {P : W → Type 0} {Q : A → W → Type 0} {E : W → Type 0} {m : Exec W A}
      → Triple P m Q E
      → Triple P (try m) (Caught Q E) E
  Triple-try {Q = Q} {E = E} {m = m} t = record { run = λ w h. Post-caught Q E (m w) (t.run w h) }

module _ {W A : Type 0} where
  Post-uncaught :
      (Q : Result A → W → Type 0) (E F : W → Type 0)
      → ((e : Error) (w : W) → Q (err e) w → F w)
      → ((w : W) → E w → F w)
      → (o : Outcome A × W) → Post Q E (caught o)
      → Post (λ a. Q (ok a)) F o
  Post-uncaught Q E F f g (done a, w) h = h
  Post-uncaught Q E F f g (failed e, w) h = f e w h
  Post-uncaught Q E F f g (panicked s, w) h = g w h

  -- What holds of a caught outcome holds of the call itself.
  pub Triple-uncaught :
      {P : W → Type 0} {Q : Result A → W → Type 0} {E F : W → Type 0} {m : Exec W A}
      → Triple P (try m) Q E
      → ((e : Error) (w : W) → Q (err e) w → F w)
      → ((w : W) → E w → F w)
      → Triple P m (λ a. Q (ok a)) F
  Triple-uncaught {Q = Q} {E = E} {F = F} {m = m} t f g = record {
    run = λ w h. Post-uncaught Q E F f g (m w) (t.run w h);
  }

module _ {W : Type 0} where
  pub Triple-when :
      {P : W → Type 0} {Q : Unit → W → Type 0} {E : W → Type 0} (b : Bool) {m : Exec W Unit}
      → (b ≡ true → Triple P m Q E)
      → (b ≡ false → (w : W) → P w → Q tt w)
      → Triple P (when b m) Q E
  Triple-when true f g = f refl
  Triple-when false f g = record { run = g refl }

module _ {W A : Type 0} where
  Keeps-caught :
      (P : W → Type 0) (o : Outcome A × W) → Post (λ _. P) P o → Post (λ _. P) P (caught o)
  Keeps-caught P (done a, w) h = h
  Keeps-caught P (failed e, w) h = h
  Keeps-caught P (panicked s, w) h = h

module _ {W A : Type 0} {P : W → Type 0} where
  pub Keeps-pure : (a : A) → Keeps P (pure a)
  Keeps-pure a = record { run = λ w h. h }

  pub Keeps-raise : (e : Error) → Keeps P (raise {A = A} e)
  Keeps-raise e = record { run = λ w h. h }

  pub Keeps-lift : (r : Result A) → Keeps P (lift r)
  Keeps-lift r = Triple-lift r (λ _ _ _ h. h) (λ _ h. h)

  pub Keeps-deref : (o : Option A) → Keeps P (deref o)
  Keeps-deref none = record { run = λ w h. h }
  Keeps-deref (some a) = record { run = λ w h. h }

  pub Keeps-if : (b : Bool) (m n : Exec W A) → Keeps P m → Keeps P n → Keeps P (if b then m else n)
  Keeps-if true m n k l = k
  Keeps-if false m n k l = l

  pub Keeps-try : {m : Exec W A} → Keeps P m → Keeps P (try m)
  Keeps-try {m = m} k = record { run = λ w h. Keeps-caught P (m w) (k.run w h) }

pub Keeps-bind :
    {W A B : Type 0} {P : W → Type 0} {m : Exec W A} {f : A → Exec W B}
    → Keeps P m
    → ((a : A) → Keeps P (f a))
    → Keeps P (m >>= f)
Keeps-bind k l = Triple-bind k l

pub ruleset keeps_rules =
    (Keeps-pure, Keeps-raise, Keeps-lift, Keeps-deref, Keeps-if, Keeps-try, Keeps-bind)
