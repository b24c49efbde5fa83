-- ===== src/Base/Results.antt =====
-- What a method returns, or throws.
use mathlib.Core.Path.{◌≡◌, refl}
use mathlib.Core.Logic.{◌⊎◌, inl, inr}
use mathlib.Core.Bool.{Bool, true, false}

pub data Result (E A : Type 0) : Type 0 where
  ok : A → Result E A
  err : E → Result E A

pub Result-cases :
    {E A : Type 0} (r : Result E A) → ((a : A) × (r ≡ ok a)) ⊎ ((e : E) × (r ≡ err e))
Result-cases (ok a) = inl (a, refl)
Result-cases (err e) = inr (e, refl)

-- A refusal is no answer.
pub refused :
    {E A S : Type 0} {C : Type 0} {e : E} {a : A} {s s' : S}
    → ◌≡◌ {A = Result E A × S} (err e, s) (ok a, s')
    → C
refused h = cc

-- A call and what follows it: a throw ends it, and leaves what was written.
unfoldable pub and_then :
    {E A B S : Type 0} → Result E A × S → (A → S → Result E B × S) → Result E B × S
and_then (ok a, s) k = k a s
and_then (err e, s) k = (err e, s)

-- What holds of a throw and of each way to go on holds of the whole.
pub and_then_ind {κ} :
    {E A B S : Type 0} (Q : Result E B × S → Type κ) (out : Result E A × S)
    (k : A → S → Result E B × S)
    → ((e : E) → out.0 ≡ err e → Q (err e, out.1))
    → ((a : A) → out.0 ≡ ok a → Q (k a out.1))
    → Q (and_then out k)
unfolding and_then
and_then_ind Q (ok a, s) k l r = r a refl
and_then_ind Q (err e, s) k l r = l e refl

abbrev pub is_ok : {E A : Type 0} → Result E A → Bool
is_ok (ok _) = true
is_ok (err _) = false
