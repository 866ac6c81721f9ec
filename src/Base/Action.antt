-- ===== src/Base/Action.antt =====
-- Asynchronous methods that read and change a state and may throw: what was written before a throw
-- stays written.
use Prim.Native.Nat.{ℕ}
use Prim.Native.String.{String}
use mathlib.Core.Path.{◌≡◌, refl, subst}
use mathlib.Core.Option.{Option, none, some}

-- What the program throws: a rejected call of the database, the use of `undefined` as an object, an
-- `HttpException` with its status and message, or an error of another library.
pub data Exception : Type 0 where
  database_error type_error library_error : Exception
  http_exception : ℕ → String → Exception

pub data Result (A : Type 0) : Type 0 where
  ok : A → Result A
  err : Exception → Result A

abbrev pub Action : Type 0 → Type 0 → Type 0
Action S A = S → Result A × S

abbrev pub pure : {S A : Type 0} → A → Action S A
pure a s = (ok a, s)

abbrev pub throw : {S A : Type 0} → Exception → Action S A
throw e s = (err e, s)

abbrev pub gets : {S A : Type 0} → (S → A) → Action S A
gets f s = (ok (f s), s)

abbrev pub modify : {S : Type 0} → (S → S) → Action S (Unit {0})
modify f s = (ok tt, f s)

-- What follows an action: it runs on a result, and an exception passes it by.
abbrev pub proceed : {S A B : Type 0} → (A → Action S B) → Result A × S → Result B × S
proceed f (ok a, s) = f a s
proceed f (err e, s) = (err e, s)

infixl 5 ◌>>=◌ ◌>>◌
unfoldable pub ◌>>=◌ : {S A B : Type 0} → Action S A → (A → Action S B) → Action S B
◌>>=◌ m f s = proceed f (m s)

abbrev pub ◌>>◌ : {S A B : Type 0} → Action S A → Action S B → Action S B
m >> k = m >>= λ _. k

-- `try { … } catch (err) { … }`
abbrev pub handled : {S A : Type 0} → (Exception → Action S A) → Result A × S → Result A × S
handled handler (ok a, s) = (ok a, s)
handled handler (err e, s) = handler e s

unfoldable pub catch : {S A : Type 0} → Action S A → (Exception → Action S A) → Action S A
catch m handler s = handled handler (m s)

-- A promise that nobody awaits: how it ends is not seen.
abbrev pub ignore : {S A : Type 0} → Action S A → Action S (Unit {0})
ignore m s = (ok tt, (m s).1)

-- What holds after an action, by how it ended.
abbrev pub EndsAs : {S A : Type 0} → (S → Type 0) → (A → S → Type 0) → Result A × S → Type 0
EndsAs Thrown Done (ok a, s) = Done a s
EndsAs Thrown Done (err e, s) = Thrown s

pub record Ends {S A : Type 0} (Thrown : S → Type 0) (Done : A → S → Type 0) (p : Result A × S)
    : Type 0 where
  pub ends : EndsAs Thrown Done p

module _ {S A B : Type 0} {Thrown : S → Type 0} {Done : B → S → Type 0} where
  Ends-proceed :
      (Mid : A → S → Type 0) (f : A → Action S B) (p : Result A × S)
      → EndsAs Thrown Mid p
      → ((a : A) (t : S) → Mid a t → Ends Thrown Done (f a t))
      → EndsAs Thrown Done (proceed f p)
  Ends-proceed Mid f (ok a, t) q k = (k a t q).ends
  Ends-proceed Mid f (err e, t) q k = q

  -- The rule for a sequence: from what holds after the first part.
  pub Ends-bind :
      {Mid : A → S → Type 0} (m : Action S A) (f : A → Action S B) (s : S)
      → Ends Thrown Mid (m s)
      → ((a : A) (t : S) → Mid a t → Ends Thrown Done (f a t))
      → Ends Thrown Done ((m >>= f) s)
  unfolding ◌>>=◌
  Ends-bind {Mid} m f s h k = record { ends = Ends-proceed Mid f (m s) h.ends k }

module _ {S A : Type 0} {Thrown Thrown' : S → Type 0} {Done Done' : A → S → Type 0} where
  EndsAs-mono :
      (p : Result A × S)
      → ((t : S) → Thrown t → Thrown' t)
      → ((a : A) (t : S) → Done a t → Done' a t)
      → EndsAs Thrown Done p
      → EndsAs Thrown' Done' p
  EndsAs-mono (ok a, t) f g h = g a t h
  EndsAs-mono (err e, t) f g h = f t h

  pub Ends-mono :
      {p : Result A × S}
      → ((t : S) → Thrown t → Thrown' t)
      → ((a : A) (t : S) → Done a t → Done' a t)
      → Ends Thrown Done p
      → Ends Thrown' Done' p
  Ends-mono {p} f g h = record { ends = EndsAs-mono p f g h.ends }

module _ {S A : Type 0} where
  EndsAs-always : (P : S → Type 0) (p : Result A × S) → P p.1 → EndsAs P (λ _. P) p
  EndsAs-always P (ok a, t) h = h
  EndsAs-always P (err e, t) h = h

  -- What holds of the state after an action, however it ended.
  pub Ends-always : (P : S → Type 0) (p : Result A × S) → P p.1 → Ends P (λ _. P) p
  Ends-always P p h = record { ends = EndsAs-always P p h }

  EndsAs-state : (P : S → Type 0) (p : Result A × S) → EndsAs P (λ _. P) p → P p.1
  EndsAs-state P (ok a, t) h = h
  EndsAs-state P (err e, t) h = h

  pub Ends-state : (P : S → Type 0) (p : Result A × S) → Ends P (λ _. P) p → P p.1
  Ends-state P p h = EndsAs-state P p h.ends

  pub Ends-pure :
      {Thrown : S → Type 0} {Done : A → S → Type 0} (a : A) (s : S)
      → Done a s
      → Ends Thrown Done (ok a, s)
  Ends-pure a s h = record { ends = h }

  pub Ends-throw :
      {Thrown : S → Type 0} {Done : A → S → Type 0} (e : Exception) (s : S)
      → Thrown s
      → Ends Thrown Done (err e, s)
  Ends-throw e s h = record { ends = h }

-- A call of a library that gives `none` where it is rejected.
abbrev pub attempt : {A : Type 0} → Option A → Result A
attempt none = err database_error
attempt (some a) = ok a

pub attempt-ok : {A : Type 0} (o : Option A) {a : A} → attempt o ≡ ok a → o ≡ some a
attempt-ok none e = cc
attempt-ok (some b) e = cc

pub ok-injective : {A : Type 0} {x y : A} → ◌≡◌ {A = Result A} (ok x) (ok y) → x ≡ y
ok-injective e = cc

module _ {S A : Type 0} where
  -- What holds of every result of an action.
  pub Ends-ok :
      {Thrown : S → Type 0} (D : A → Type 0) (p : Result A × S) {x : A}
      → Ends Thrown (λ y _. D y) p
      → p.0 ≡ ok x
      → D x
  Ends-ok D (ok y, s) h e = subst D (ok-injective e) h.ends
  Ends-ok D (err y, s) h e = cc

  -- The action gives a result, and what holds of it and of the state.
  abbrev pub Gives : (A → S → Type 0) → Result A × S → Type 0
  Gives Done = Ends (λ _. ⊥) Done

  pub Gives-ok :
      {Done : A → S → Type 0} (p : Result A × S)
      → Gives Done p
      → (x : A) × (p.0 ≡ ok x) × Done x p.1
  Gives-ok (ok x, s) g = (x, refl, g.ends)
  Gives-ok (err e, s) g = absurd g.ends

  -- What holds of a result and of the state with it.
  pub Ends-done :
      {Thrown : S → Type 0} (Done : A → S → Type 0) (p : Result A × S) {x : A}
      → Ends Thrown Done p
      → p.0 ≡ ok x
      → Done x p.1
  Ends-done Done (ok y, s) h e = subst (λ z. Done z s) (ok-injective e) h.ends
  Ends-done Done (err y, s) h e = cc
