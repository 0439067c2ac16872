-- ===== src/State/Monad.antt =====
-- The state, and a method call: it returns a result and the state that it leaves, also when it fails.
use sudharma.Base.{Bool, Bytes, Error, Result, ap, err, fail_if, ok, refl, wrap, ℕ, ◌≡◌}
use sudharma.Dict.{Dict}

pub record State : Type 0 where
  pub balances : Dict Bytes ℕ
  pub processed_tx : Dict Bytes Bool
  pub account_nonces : Dict Bytes ℕ
  pub development_address : Bytes
  pub issued_supply : ℕ
  pub monetary_policy : ℕ

abbrev pub Action : Type 0 → Type 0
Action A = State → Result A × State

module _ {A : Type 0} where
  abbrev pub pure : A → Action A
  pure a s = (ok a, s)

  abbrev pub raise : Error → Action A
  raise e s = (err e, s)

  -- `return ..., fmt.Errorf("...: %w", err)` after a failed call
  abbrev pub wrap_action : (Error → Error) → Action A → Action A
  wrap_action w m s = let (r, s') = m s in (wrap w r, s')

infixl 5 ◌>>=◌ ◌>>◌
abbrev pub ◌>>=◌ : {A B : Type 0} → Action A → (A → Action B) → Action B
◌>>=◌ m f s = let (r, s') = m s in elim r [ ok a ↦ f a s' | err e ↦ (err e, s') ]

abbrev pub ◌>>◌ : {A B : Type 0} → Action A → Action B → Action B
m >> k = m >>= λ _. k

-- To show a property of a sequence of two calls, show it of the second after a success of the first,
-- and of the failure of the first.
pub bind_rule :
    {A B : Type 0} (P : Result B × State → Type 0) (m : Action A) (f : A → Action B) (s : State)
    → ((a : A) (t : State) → m s ≡ (ok a, t) → P (f a t))
    → ((e : Error) (t : State) → m s ≡ (err e, t) → P (err e, t))
    → P ((m >>= f) s)
bind_rule {A} {B} P m f s on_ok on_err = go (m s) refl
  where
    go :
        (o : Result A × State)
        → m s ≡ o
        → P (let (r, s') = o in elim r [ ok a ↦ f a s' | err e ↦ (err e, s') ])
    go (ok a, t) h = on_ok a t h
    go (err e, t) h = on_err e t h

-- A wrapped error leaves the outcome of a success.
pub wrap_action_ok :
    {A : Type 0} (w : Error → Error) (m : Action A) (s : State) {a : A} {t : State}
    → ◌≡◌ {A = Result A × State} (wrap_action w m s) (ok a, t)
    → ◌≡◌ {A = Result A × State} (m s) (ok a, t)
wrap_action_ok {A} w m s {a} {t} = go (m s)
  where
    go :
        (o : Result A × State)
        → ◌≡◌ {A = Result A × State} (wrap w o.0, o.1) (ok a, t)
        → ◌≡◌ {A = Result A × State} o (ok a, t)
    go (ok b, u) h = h
    go (err e, u) h = absurd (cc (ap (λ (p : Result A × State). p.0) h))

-- `if b { return e }`
abbrev pub fail_action : Bool → Error → Action (Unit {0})
fail_action b e s = (fail_if b e, s)

-- A call that does not touch the state.
abbrev pub lift : {A : Type 0} → Result A → Action A
lift r s = (r, s)

-- A sequence that succeeded: both calls did.
pub bind_ok :
    {A B : Type 0} (m : Action A) (f : A → Action B) (s : State) {b : B} {u : State}
    → (m >>= f) s ≡ (ok b, u)
    → (a : A) × (t : State) × (m s ≡ (ok a, t)) × (f a t ≡ (ok b, u))
bind_ok {A} {B} m f s {b} {u} = go (m s) refl
  where
    go :
        (o : Result A × State)
        → m s ≡ o
        → ◌≡◌ {A = Result B × State}
            (let (r, s') = o in elim r [ ok a ↦ f a s' | err e ↦ (err e, s') ])
            (ok b, u)
        → (a : A) × (t : State) × (m s ≡ (ok a, t)) × (f a t ≡ (ok b, u))
    go (ok a, t) h k = (a, t, h, k)
    go (err e, t) h k = absurd (cc (ap (λ (p : Result B × State). p.0) k))
