-- ===== src/Base/Keeping.antt =====
-- Actions that leave a part of the state as it is.
use mathlib.Core.Path.{◌≡◌, refl, ap, ◌∙◌}
use exchange_backend.Base.Action.{
  Exception, Action, Result, ok, err, proceed, handled, catch, pure, throw, ignore, Ends, Ends-pure,
  Ends-throw, Ends-bind, Ends-always, Ends-mono, ◌>>=◌,
}
use mathlib.Core.Bool.{Bool, true, false}
use exchange_backend.Base.{if◌then◌else◌}

-- The action leaves a part of the state as it is, however it ends.
pub record Keeps {S T : Type 0} (get : S → T) {A : Type 0} (m : Action S A) : Type 0 where
  pub keeps : (s : S) → get (m s).1 ≡ get s

module _ {S T : Type 0} (get : S → T) where
  Keeps-proceed :
      {A B : Type 0} (f : A → Action S B) (p : Result A × S)
      → ((a : A) → Keeps get (f a))
      → get (proceed f p).1 ≡ get p.1
  Keeps-proceed f (ok a, t) h = (h a).keeps t
  Keeps-proceed f (err e, t) h = refl

  pub Keeps-bind :
      {A B : Type 0} {m : Action S A} {f : A → Action S B}
      → Keeps get m
      → ((a : A) → Keeps get (f a))
      → Keeps get (m >>= f)
  unfolding ◌>>=◌
  Keeps-bind {m = m} {f = f} h k = record { keeps = λ s. Keeps-proceed f (m s) k ∙ h.keeps s }

  Keeps-handled :
      {A : Type 0} (f : Exception → Action S A) (p : Result A × S)
      → ((e : Exception) → Keeps get (f e))
      → get (handled f p).1 ≡ get p.1
  Keeps-handled f (ok a, t) h = refl
  Keeps-handled f (err e, t) h = (h e).keeps t

  pub Keeps-catch :
      {A : Type 0} {m : Action S A} {f : Exception → Action S A}
      → Keeps get m
      → ((e : Exception) → Keeps get (f e))
      → Keeps get (catch m f)
  unfolding catch
  Keeps-catch {m = m} {f = f} h k = record { keeps = λ s. Keeps-handled f (m s) k ∙ h.keeps s }

  pub Keeps-pure : {A : Type 0} (x : A) → Keeps get (pure {S = S} x)
  Keeps-pure x = record { keeps = λ s. refl }

  pub Keeps-throw : {A : Type 0} (e : Exception) → Keeps get (throw {S = S} {A = A} e)
  Keeps-throw e = record { keeps = λ s. refl }

  pub Keeps-if :
      {A : Type 0} (b : Bool) {m n : Action S A}
      → Keeps get m
      → Keeps get n
      → Keeps get (if b then m else n)
  Keeps-if true h k = h
  Keeps-if false h k = k

  pub Keeps-ignore : {A : Type 0} {m : Action S A} → Keeps get m → Keeps get (ignore m)
  Keeps-ignore h = record { keeps = h.keeps }

pub ruleset keeps_rules = (Keeps-pure, Keeps-throw, Keeps-if, Keeps-ignore, Keeps-bind, Keeps-catch)

module _ {S T U : Type 0} where
  -- What keeps a part keeps what is computed from it.
  pub Keeps-ap :
      (get : S → T) (f : T → U) {A : Type 0} (m : Action S A)
      → Keeps get m
      → Keeps (λ s. f (get s)) m
  Keeps-ap get f m h = record { keeps = λ s. ap f (h.keeps s) }

-- Every result of the action has the property.
pub record Yields {S A : Type 0} (P : A → Type 0) (m : Action S A) : Type 0 where
  pub yields : (s : S) → Ends (λ _. Unit {0}) (λ x _. P x) (m s)

module _ {S A : Type 0} {P : A → Type 0} where
  pub Yields-pure : (x : A) → P x → Yields P (pure {S = S} x)
  Yields-pure x h = record { yields = λ s. Ends-pure x s h }

  pub Yields-throw : (e : Exception) → Yields P (throw {S = S} {A = A} e)
  Yields-throw e = record { yields = λ s. Ends-throw e s tt }

  pub Yields-bind :
      {B : Type 0} (m : Action S B) (f : B → Action S A)
      → ((x : B) → Yields P (f x))
      → Yields P (m >>= f)
  Yields-bind m f h = record {
    yields = λ s. Ends-bind m f s (Ends-always (λ _. Unit {0}) (m s) tt) (λ x t _. (h x).yields t);
  }

  Yields-handled :
      (f : Exception → Action S A) (p : Result A × S)
      → Ends (λ _. Unit {0}) (λ x _. P x) p
      → ((e : Exception) → Yields P (f e))
      → Ends (λ _. Unit {0}) (λ x _. P x) (handled f p)
  Yields-handled f (ok x, t) h k = h
  Yields-handled f (err e, t) h k = (k e).yields t

  pub Yields-catch :
      {m : Action S A} {f : Exception → Action S A}
      → Yields P m
      → ((e : Exception) → Yields P (f e))
      → Yields P (catch m f)
  unfolding catch
  Yields-catch {m = m} {f = f} h k = record { yields = λ s. Yields-handled f (m s) (h.yields s) k }

  pub Yields-if :
      (b : Bool) {m n : Action S A} → Yields P m → Yields P n → Yields P (if b then m else n)
  Yields-if true h k = h
  Yields-if false h k = k

module _ {S A B : Type 0} {P : A → Type 0} {Q : B → Type 0} where
  pub Yields-map :
      {m : Action S A} (f : A → B)
      → Yields P m
      → ((x : A) → P x → Q (f x))
      → Yields Q (m >>= λ x. pure (f x))
  Yields-map {m = m} f h k = record {
    yields = λ s. Ends-bind m (λ x. pure (f x)) s (h.yields s) (λ x t p. Ends-pure (f x) t (k x p));
  }

module _ {S A : Type 0} where
  pub Yields-any : (m : Action S A) → Yields (λ _. Unit {0}) m
  Yields-any m = record { yields = λ s. Ends-always (λ _. Unit {0}) (m s) tt }

kept :
    {S T A : Type 0} {get : S → T} {P : A → Type 0} (before : T) (p : Result A × S)
    → get p.1 ≡ before
    → Ends (λ _. Unit {0}) (λ x _. P x) p
    → Ends (λ t. get t ≡ before) (λ x t. P x × (get t ≡ before)) p
kept before (ok x, t) e q = Ends-pure x t (q.ends, e)
kept before (err x, t) e q = Ends-throw x t e

module _ {S T A B : Type 0} {get : S → T} {P : A → Type 0} {m : Action S A} {f : A → Action S B}
    {Thrown : S → Type 0} {Done : B → S → Type 0} (h : Keeps get m) (y : Yields P m) (s : S) where
  -- What follows an action that leaves a part of the state and gives only what has a property.
  pub Ends-after :
      ((t : S) → get t ≡ get s → Thrown t)
      → ((x : A) (t : S) → P x → get t ≡ get s → Ends Thrown Done (f x t))
      → Ends Thrown Done ((m >>= f) s)
  Ends-after thrown done =
      Ends-bind m f s (Ends-mono thrown (λ x t q. q) (kept (get s) (m s) (h.keeps s) (y.yields s)))
        (λ x t (p, e). done x t p e)

pub ruleset yields_rules = (Yields-if, Yields-pure, Yields-throw, Yields-bind, Yields-catch)
