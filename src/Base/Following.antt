-- ===== src/Base/Following.antt =====
-- What an action makes of a part of the state: nothing where it throws, and else what its result says.
use exchange_backend.Base.{◌≡◌, sym, subst, ◌∙◌, Bool, true, false, if◌then◌else◌}
use exchange_backend.Base.Action.{
  Exception, Action, Result, ok, err, pure, throw, catch, handled, Ends, Ends-pure, Ends-throw,
  Ends-bind, ◌>>=◌,
}
use exchange_backend.Base.Keeping.{Keeps, Yields, Yields-any, Ends-after}

module _ {S T A : Type 0} (get : S → T) (before : T) (Done : A → T → Type 0) where
  -- From a state whose part is `before`: thrown, the part is left, and a result has `Done` with it.
  pub record Follows (m : Action S A) : Type 0 where
    pub follows :
        (s : S) → get s ≡ before → Ends (λ t. get t ≡ before) (λ x t. Done x (get t)) (m s)

  pub Follows-pure : (x : A) → Done x before → Follows (pure x)
  Follows-pure x h = record { follows = λ s e. Ends-pure x s (subst (Done x) (sym e) h) }

  pub Follows-throw : (e : Exception) → Follows (throw e)
  Follows-throw e = record { follows = λ s h. Ends-throw e s h }

  pub Follows-if :
      (b : Bool) {m n : Action S A} → Follows m → Follows n → Follows (if b then m else n)
  Follows-if true h k = h
  Follows-if false h k = k

  module _ {B : Type 0} {f : B → Action S A} where
    -- After an action that leaves the part and gives only what has a property.
    pub Follows-after :
        {P : B → Type 0} {m : Action S B}
        → Keeps get m
        → Yields P m
        → ((x : B) → P x → Follows (f x))
        → Follows (m >>= f)
    Follows-after h y k = record {
      follows = λ s e. Ends-after h y s (λ t q. q ∙ e) (λ x t p q. (k x p).follows t (q ∙ e));
    }

    pub Follows-then :
        {m : Action S B} → Keeps get m → ((x : B) → Follows (f x)) → Follows (m >>= f)
    Follows-then h k = Follows-after {P = λ _. Unit} h (Yields-any _) (λ x _. k x)

  Follows-handled :
      (f : Exception → Action S A) (p : Result A × S)
      → Ends (λ t. get t ≡ before) (λ x t. Done x (get t)) p
      → ((e : Exception) → Follows (f e))
      → Ends (λ t. get t ≡ before) (λ x t. Done x (get t)) (handled f p)
  Follows-handled f (ok x, t) h k = h
  Follows-handled f (err e, t) h k = (k e).follows t h.ends

  pub Follows-catch :
      {m : Action S A} {f : Exception → Action S A}
      → Follows m
      → ((e : Exception) → Follows (f e))
      → Follows (catch m f)
  unfolding catch
  Follows-catch {m = m} {f = f} h k = record {
    follows = λ s e. Follows-handled f (m s) (h.follows s e) k;
  }

  Ends-handled :
      {Thrown : S → Type 0} (f : Exception → Action S A) (p : Result A × S)
      → Ends (λ t. get t ≡ before) (λ x t. Done x (get t)) p
      → ((e : Exception) (t : S) → get t ≡ before → Ends Thrown (λ x u. Done x (get u)) (f e t))
      → Ends Thrown (λ x u. Done x (get u)) (handled f p)
  Ends-handled f (ok x, t) h k = Ends-pure x t h.ends
  Ends-handled f (err e, t) h k = k e t h.ends

  -- What is thrown is what the action that catches the exceptions throws.
  pub Ends-catch :
      {Thrown : S → Type 0} {m : Action S A} {f : Exception → Action S A}
      → Follows m
      → ((e : Exception) (t : S) → get t ≡ before → Ends Thrown (λ x u. Done x (get u)) (f e t))
      → (s : S) → get s ≡ before
      → Ends Thrown (λ x u. Done x (get u)) (catch m f s)
  unfolding catch
  Ends-catch {m = m} {f = f} h k s e = Ends-handled f (m s) (h.follows s e) k

module _ {S T A B : Type 0} (get : S → T) (before : T) (Done : A → T → Type 0)
    {f : B → Action S A} where
  -- After an action that leaves the part and gives only what is true of it.
  pub Follows-looked :
      (P : B → Type 0) {m : Action S B}
      → Follows get before (λ x t. (t ≡ before) × P x) m
      → ((x : B) → P x → Follows get before Done (f x))
      → Follows get before Done (m >>= f)
  Follows-looked P {m = m} h k = record {
    follows = λ s e. Ends-bind m f s (h.follows s e) (λ x t (q, p). (k x p).follows t q);
  }
