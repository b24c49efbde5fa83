-- ===== src/Evaluator/Meaning.antt =====
-- The texts that a glob describes (src/verification-providers/verification-evaluator.ts).
use mathlib.Core.List.{◌++◌}
use jagalchi_api.Base.{
  ℕ, Bool, true, false, List, [], ◌∷◌, ◌≡◌, ◌⊎◌, inl, inr, refl, sym, ap, subst, ◌&&◌, ◌||◌, ◌==◌,
  All, arith,
}
use jagalchi_api.Evaluator.Globs.{
  Atom, lit, maybe, star, any_line, matches, loop, eat, in_name, in_line,
}

-- Some item of a list has a property.
abbrev pub Some : {A : Type 0} → (A → Type 0) → List A → Type 0
Some P [] = ⊥
Some P (x ∷ xs) = P x ⊎ Some P xs

-- The texts that an expression describes: their characters are divided among its atoms.
abbrev pub Denotes : List Atom → List ℕ → Type 0
Denotes [] cs = cs ≡ []
Denotes (lit c ∷ rest) cs = (ds : List ℕ) × (cs ≡ c ∷ ds) × Denotes rest ds
Denotes (maybe c ∷ rest) cs = ((ds : List ℕ) × (cs ≡ c ∷ ds) × Denotes rest ds) ⊎ Denotes rest cs
Denotes (star ∷ rest) cs =
    (us : List ℕ) × (vs : List ℕ) × (cs ≡ us ++ vs)
    × All (λ c. in_name c ≡ true) us
    × Denotes rest vs
Denotes (any_line ∷ rest) cs =
    (us : List ℕ) × (vs : List ℕ) × (cs ≡ us ++ vs)
    × All (λ c. in_line c ≡ true) us
    × Denotes rest vs

pub either : (a b : Bool) → (a || b) ≡ true → (a ≡ true) ⊎ (b ≡ true)
either true b h = inl refl
either false b h = inr h

pub both : (a b : Bool) → (a && b) ≡ true → (a ≡ true) × (b ≡ true)
both a b h = ground arith

pub left_of : (a b : Bool) → a ≡ true → (a || b) ≡ true
left_of a b h = ground arith

pub right_of : (a b : Bool) → b ≡ true → (a || b) ≡ true
right_of a b h = ground arith

loop-divides :
    (p : ℕ → Bool) (k : List ℕ → Bool) (cs : List ℕ)
    → loop p k cs ≡ true
    → (us : List ℕ) × (vs : List ℕ) × (cs ≡ us ++ vs) × All (λ c. p c ≡ true) us × (k vs ≡ true)
unfolding loop
loop-divides p k [] h = ([], [], refl, tt, h)
loop-divides p k (c ∷ cs) h = elim (either (k (c ∷ cs)) (p c && loop p k cs) h) [
  | inl e ↦ ([], c ∷ cs, refl, tt, e)
  | inr e ↦
      let (pc, more) = both (p c) (loop p k cs) e in
      let (us, vs, split, ps, kv) = loop-divides p k cs more in
      (c ∷ us, vs, ap (λ xs. c ∷ xs) split, (pc, ps), kv)
]

divides-loop :
    (p : ℕ → Bool) (k : List ℕ → Bool) (us vs : List ℕ)
    → All (λ c. p c ≡ true) us
    → k vs ≡ true
    → loop p k (us ++ vs) ≡ true
unfolding loop
divides-loop p k [] [] ps h = h
divides-loop p k [] (v ∷ vs) ps h = left_of (k (v ∷ vs)) _ h
divides-loop p k (u ∷ us) vs ps h =
    right_of (k (u ∷ us ++ vs)) _ (rw (ps.0, divides-loop p k us vs ps.1 h) refl)

eat-first :
    (c : ℕ) (k : List ℕ → Bool) (cs : List ℕ)
    → eat c k cs ≡ true
    → (ds : List ℕ) × (cs ≡ c ∷ ds) × (k ds ≡ true)
unfolding eat
eat-first c k [] h = cc
eat-first c k (d ∷ ds) h =
    let (e, rest) = both (d == c) (k ds) h in (ds, ap (λ x. x ∷ ds) (ground arith), rest)

first-eats : (c : ℕ) (k : List ℕ → Bool) (ds : List ℕ) → k ds ≡ true → eat c k (c ∷ ds) ≡ true
unfolding eat
first-eats c k ds h = ground arith

pub matches_sound : (atoms : List Atom) (cs : List ℕ) → matches atoms cs ≡ true → Denotes atoms cs
unfolding matches
matches_sound [] [] h = refl
matches_sound [] (c ∷ cs) h = cc
matches_sound (lit c ∷ rest) cs h =
    let (ds, e, more) = eat-first c (matches rest) cs h in (ds, e, matches_sound rest ds more)
matches_sound (maybe c ∷ rest) cs h = elim (either (eat c (matches rest) cs) (matches rest cs) h) [
  | inl e ↦
      let (ds, q, more) = eat-first c (matches rest) cs e in inl (ds, q, matches_sound rest ds more)
  | inr e ↦ inr (matches_sound rest cs e)
]
matches_sound (star ∷ rest) cs h =
    let (us, vs, split, ps, more) = loop-divides in_name (matches rest) cs h in
    (us, vs, split, ps, matches_sound rest vs more)
matches_sound (any_line ∷ rest) cs h =
    let (us, vs, split, ps, more) = loop-divides in_line (matches rest) cs h in
    (us, vs, split, ps, matches_sound rest vs more)

pub matches_complete :
    (atoms : List Atom) (cs : List ℕ) → Denotes atoms cs → matches atoms cs ≡ true
unfolding matches
matches_complete [] cs e = subst (λ xs. matches [] xs ≡ true) (sym e) refl
matches_complete (lit c ∷ rest) cs (ds, e, more) =
    subst (λ xs. eat c (matches rest) xs ≡ true) (sym e)
      (first-eats c (matches rest) ds (matches_complete rest ds more))
matches_complete (maybe c ∷ rest) cs (inl (ds, e, more)) = left_of (eat c (matches rest) cs) _ (
    subst (λ xs. eat c (matches rest) xs ≡ true) (sym e)
      (first-eats c (matches rest) ds (matches_complete rest ds more)))
matches_complete (maybe c ∷ rest) cs (inr more) =
    right_of (eat c (matches rest) cs) _ (matches_complete rest cs more)
matches_complete (star ∷ rest) cs (us, vs, split, ps, more) =
    subst (λ xs. loop in_name (matches rest) xs ≡ true) (sym split)
      (divides-loop in_name (matches rest) us vs ps (matches_complete rest vs more))
matches_complete (any_line ∷ rest) cs (us, vs, split, ps, more) =
    subst (λ xs. loop in_line (matches rest) xs ≡ true) (sym split)
      (divides-loop in_line (matches rest) us vs ps (matches_complete rest vs more))
