-- ===== src/Base/Preserving.antt =====
-- Actions that keep an invariant of the state, however they end.
use exchange_backend.Base.{Bool, true, false, if◌then◌else◌}
use exchange_backend.Base.Action.{
  Exception, Action, Result, ok, err, pure, throw, catch, handled, proceed, ignore, Ends, ◌>>=◌,
}
use exchange_backend.Base.Keeping.{Keeps, Yields}
use mathlib.Core.Path.{sym, subst}

pub record Preserves {S : Type 0} (P : S → Type 0) {A : Type 0} (m : Action S A) : Type 0 where
  pub preserves : (s : S) → P s → P (m s).1

module _ {S : Type 0} (P : S → Type 0) where
  pub Preserves-pure : {A : Type 0} (x : A) → Preserves P (pure x)
  Preserves-pure x = record { preserves = λ s h. h }

  pub Preserves-throw : {A : Type 0} (e : Exception) → Preserves P (throw {A = A} e)
  Preserves-throw e = record { preserves = λ s h. h }

  pub Preserves-if :
      {A : Type 0} (b : Bool) {m n : Action S A}
      → Preserves P m
      → Preserves P n
      → Preserves P (if b then m else n)
  Preserves-if true h k = h
  Preserves-if false h k = k

  pub Preserves-ignore : {A : Type 0} {m : Action S A} → Preserves P m → Preserves P (ignore m)
  Preserves-ignore h = record { preserves = h.preserves }

  Preserves-proceed :
      {A B : Type 0} (Q : A → Type 0) (f : A → Action S B) (p : Result A × S)
      → Ends (λ _. Unit {0}) (λ x _. Q x) p
      → ((x : A) → Q x → Preserves P (f x))
      → P p.1
      → P (proceed f p).1
  Preserves-proceed Q f (ok x, t) q k h = (k x q.ends).preserves t h
  Preserves-proceed Q f (err e, t) q k h = h

  -- After an action that gives only what has a property.
  pub Preserves-after :
      {A B : Type 0} {Q : A → Type 0} {m : Action S A} {f : A → Action S B}
      → Preserves P m
      → Yields Q m
      → ((x : A) → Q x → Preserves P (f x))
      → Preserves P (m >>= f)
  unfolding ◌>>=◌
  Preserves-after {Q = Q} {m = m} {f = f} h y k = record {
    preserves = λ s p. Preserves-proceed Q f (m s) (y.yields s) k (h.preserves s p);
  }

  Preserves-handled :
      {A : Type 0} (f : Exception → Action S A) (p : Result A × S)
      → ((e : Exception) → Preserves P (f e))
      → P p.1
      → P (handled f p).1
  Preserves-handled f (ok x, t) k h = h
  Preserves-handled f (err e, t) k h = (k e).preserves t h

  pub Preserves-catch :
      {A : Type 0} {m : Action S A} {f : Exception → Action S A}
      → Preserves P m
      → ((e : Exception) → Preserves P (f e))
      → Preserves P (catch m f)
  unfolding catch
  Preserves-catch {m = m} {f = f} h k = record {
    preserves = λ s p. Preserves-handled f (m s) k (h.preserves s p);
  }

-- What leaves a part of the state keeps what is true of the part.
pub Keeps-Preserves :
    {S T A : Type 0} {get : S → T} (P : T → Type 0) {m : Action S A}
    → Keeps get m
    → Preserves (λ s. P (get s)) m
Keeps-Preserves P h = record { preserves = λ s p. subst P (sym (h.keeps s)) p }
