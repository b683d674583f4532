-- ===== src/Prelude/Actions.antt =====
-- Code that calls objects with a state and may raise: an action takes the state to the outcome and
-- the state after it, beside an exception too.
use tech_challenge_fase2_alf.Prelude.{Bool, true, false, ◌≡◌, arith, refl}
use tech_challenge_fase2_alf.Prelude.Results.{Result, ok, err}

abbrev pub Action : Type 0 → Type 0 → Type 0 → Type 0
Action S E A = S → Result E A × S

module _ {S E A B : Type 0} where
  abbrev pub continue : Result E A → (A → Action S E B) → Action S E B
  continue (ok a) f s = f a s
  continue (err e) f s = (err e, s)

  infixl 5 ◌>>=◌
  abbrev pub ◌>>=◌ : Action S E A → (A → Action S E B) → Action S E B
  ◌>>=◌ m f s = let r = m s in continue r.0 f r.1

infixl 5 ◌>>◌
abbrev pub ◌>>◌ : {S E B : Type 0} → Action S E (Unit {0}) → Action S E B → Action S E B
m >> k = m >>= λ _. k

abbrev pub pure : {S E A : Type 0} → A → Action S E A
pure a s = (ok a, s)

abbrev pub raise : {S E A : Type 0} → E → Action S E A
raise e s = (err e, s)

-- A pure function that may raise, as an action.
abbrev pub lift : {S E A : Type 0} → Result E A → Action S E A
lift r s = (r, s)

abbrev pub raise_when : {S E : Type 0} → Bool → E → Action S E (Unit {0})
raise_when true e = raise e
raise_when false e = pure tt

module _ {S E A B : Type 0} where
  continue-ok :
      (r : Result E A) (t s' : S) (f : A → Action S E B) (b : B)
      → continue r f t ≡ (ok b, s')
      → (a : A) × (r ≡ ok a) × (f a t ≡ (ok b, s'))
  continue-ok (ok a) t s' f b h = (a, refl, h)
  continue-ok (err e) t s' f b h = absurd (ground arith)

  pub >>=-ok :
      (m : Action S E A) (f : A → Action S E B) (s s' : S) (b : B)
      → (m >>= f) s ≡ (ok b, s')
      → (a : A) × ((m s).0 ≡ ok a) × (f a (m s).1 ≡ (ok b, s'))
  >>=-ok m f s s' b h = continue-ok (m s).0 (m s).1 s' f b h

module _ {S E A B : Type 0} (P : Result E B × S → Type 0) where
  continue-holds :
      (r : Result E A) (t : S) (f : A → Action S E B)
      → ((e : E) → r ≡ err e → P (err e, t))
      → ((a : A) → r ≡ ok a → P (f a t))
      → P (continue r f t)
  continue-holds (ok a) t f fails returns = returns a refl
  continue-holds (err e) t f fails returns = fails e refl

  -- A property of an outcome holds after two actions where it holds of the first's error and of the
  -- second, from the first's result and state.
  pub >>=-holds :
      (m : Action S E A) (f : A → Action S E B) (s : S)
      → ((e : E) → (m s).0 ≡ err e → P (err e, (m s).1))
      → ((a : A) → (m s).0 ≡ ok a → P (f a (m s).1))
      → P ((m >>= f) s)
  >>=-holds m f s fails returns = continue-holds (m s).0 (m s).1 f fails returns

module _ {S E B : Type 0} (P : Result E B × S → Type 0) where
  pub guard-holds :
      (b : Bool) (e : E) (k : Action S E B) (s : S)
      → P (err e, s)
      → (b ≡ false → P (k s))
      → P ((raise_when b e >> k) s)
  guard-holds true e k s fails returns = fails
  guard-holds false e k s fails returns = returns refl

  -- The same, where the exception needs the condition.
  pub guard-splits :
      (b : Bool) (e : E) (k : Action S E B) (s : S)
      → (b ≡ true → P (err e, s))
      → (b ≡ false → P (k s))
      → P ((raise_when b e >> k) s)
  guard-splits true e k s fails returns = fails refl
  guard-splits false e k s fails returns = returns refl
