-- ===== src/Effect.antt =====
-- Code that calls other programs and services, or writes files. Such a call is recorded, and what it
-- answers may depend on all calls before it; the last one stands first.
use opencode_reviewer.Prelude.{List, ◌∷◌, Result, ok, err}

abbrev pub Effect : Type 0 → Type 0 → Type 0 → Type 0
Effect C E A = List C → Result E A × List C

module _ {C E A : Type 0} where
  abbrev pub pure : A → Effect C E A
  pure a calls = (ok a, calls)

  abbrev pub fail : E → Effect C E A
  fail e calls = (err e, calls)

  -- A call, and its answer.
  abbrev pub perform : C → (List C → Result E A) → Effect C E A
  perform c answer calls = (answer calls, c ∷ calls)

module _ {C E F A : Type 0} where
  abbrev pub mapped : (E → F) → Result E A × List C → Result F A × List C
  mapped f (ok a, calls) = (ok a, calls)
  mapped f (err e, calls) = (err (f e), calls)

  -- The error of a step, wrapped.
  abbrev pub wrapping : (E → F) → Effect C E A → Effect C F A
  wrapping f m calls = mapped f (m calls)

module _ {C E A B : Type 0} where
  abbrev pub continue : (A → Effect C E B) → Result E A × List C → Result E B × List C
  continue f (ok a, calls) = f a calls
  continue f (err e, calls) = (err e, calls)

  infixl 5 ◌>>=◌
  abbrev pub ◌>>=◌ : Effect C E A → (A → Effect C E B) → Effect C E B
  ◌>>=◌ m f calls = continue f (m calls)
