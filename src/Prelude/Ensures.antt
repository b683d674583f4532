-- ===== src/Prelude/Ensures.antt =====
-- What a function that may raise ensures of its result.
use tech_challenge_fase2_alf.Prelude.{Bool, true, false, ◌≡◌, refl, ap, subst, arith}
use tech_challenge_fase2_alf.Prelude.Results.{Result, ok, err, ◌>>=◌, ◌>>◌, raise_if}

abbrev pub or_else : {E A : Type 0} → A → Result E A → A
or_else a (ok b) = b
or_else a (err e) = a

module _ {E A : Type 0} (P : A → Type 0) where
  -- A result, if there is one, has the property.
  abbrev pub Ensures : Result E A → Type 0
  Ensures r = (a : A) → r ≡ ok a → P a

  pub ok-Ensures : (a : A) → P a → Ensures (ok a)
  ok-Ensures a p b h = subst P (ap (or_else a) h) p

  pub err-Ensures : (e : E) → Ensures (err e)
  err-Ensures e a h = absurd (ground arith)

  pub >>=-Ensures :
      {B : Type 0} (r : Result E B) (f : B → Result E A)
      → ((b : B) → r ≡ ok b → Ensures (f b))
      → Ensures (r >>= f)
  >>=-Ensures (ok b) f rest = rest b refl
  >>=-Ensures (err e) f rest = err-Ensures e

  -- After a check that raises, its condition is false.
  pub raise_if-Ensures :
      (b : Bool) (e : E) (k : Result E A) → (b ≡ false → Ensures k) → Ensures (raise_if b e >> k)
  raise_if-Ensures true e k rest = err-Ensures e
  raise_if-Ensures false e k rest = rest refl
