-- ===== src/Evaluator/Pieces.antt =====
-- Globs as they are written, and the expression that `pathMatches`
-- (src/verification-providers/verification-evaluator.ts) makes of them.
use mathlib.Core.List.{◌++◌}
use jagalchi_api.Base.{
  String, All, inl, inr, ok, ℕ, Bool, true, false, some, List, [], ◌∷◌, ◌≡◌, ◌≢◌, ◌↔◌, refl, ◌==◌,
  map, arith,
}
use jagalchi_api.Evaluator.Globs.{Atom, lit, star, any_line, compile, codes, in_name, in_line}
use jagalchi_api.Evaluator.Evaluate.{any_matches, some_path_matches}
use jagalchi_api.Evaluator.Rules.{any_matches-Some}
use jagalchi_api.Evaluator.Meaning.{Some, Denotes}

-- A character, `*` for characters of one name, `**` for characters of any names.
pub data Piece : Type 0 where
  char : ℕ → Piece
  in_a_name : Piece
  in_a_path : Piece

unfoldable pub write : List Piece → List ℕ
write [] = []
write (char c ∷ ps) = c ∷ write ps
write (in_a_name ∷ ps) = 42 ∷ write ps
write (in_a_path ∷ ps) = 42 ∷ 42 ∷ write ps

-- No asterisk and no question mark stands for itself, nor does NUL, and no two asterisks meet by
-- chance.
abbrev pub IsPlain : List Piece → Type 0
IsPlain [] = Unit
IsPlain (char c ∷ ps) = (c ≢ 42) × (c ≢ 0) × (c ≢ 63) × IsPlain ps
IsPlain (in_a_name ∷ in_a_name ∷ ps) = ⊥
IsPlain (in_a_name ∷ in_a_path ∷ ps) = ⊥
IsPlain (in_a_name ∷ ps) = IsPlain ps
IsPlain (in_a_path ∷ ps) = IsPlain ps

abbrev pub atom_of : Piece → Atom
atom_of (char c) = lit c
atom_of in_a_name = star
atom_of in_a_path = any_line

unequal : (c k : ℕ) → c ≢ k → (c == k) ≡ false
unequal c k n = ground arith

-- The expression has one atom for each piece.
Some-map :
    {A : Type 0} (P Q : A → Type 0) (xs : List A) → ((x : A) → P x → Q x) → Some P xs → Some Q xs
Some-map P Q [] f h = absurd h
Some-map P Q (x ∷ xs) f (inl p) = inl (f x p)
Some-map P Q (x ∷ xs) f (inr r) = inr (Some-map P Q xs f r)

compile-write :
    (lazy : Bool) (ps : List Piece) → IsPlain ps → compile lazy (write ps) ≡ some (map atom_of ps)
unfolding compile write
compile-write lazy [] h = refl
compile-write lazy (char c ∷ []) h = rw (unequal c 42 h.0, unequal c 0 h.1, unequal c 63 h.2) refl
compile-write lazy (char c ∷ char d ∷ ps) h =
    rw
      (
        unequal c 42 h.0,
        unequal c 0 h.1,
        unequal c 63 h.2,
        unequal d 63 h.3.2,
        compile-write false (char d ∷ ps) h.3,
      )
      refl
compile-write lazy (char c ∷ in_a_name ∷ ps) h =
    rw
      (
        unequal c 42 h.0,
        unequal c 0 h.1,
        unequal c 63 h.2,
        compile-write false (in_a_name ∷ ps) h.3,
      )
      refl
compile-write lazy (char c ∷ in_a_path ∷ ps) h =
    rw (unequal c 42 h.0, unequal c 0 h.1, unequal c 63 h.2, compile-write true ps h.3) refl
compile-write lazy (in_a_name ∷ []) h = refl
compile-write lazy (in_a_name ∷ char d ∷ ps) h =
    rw (unequal d 42 h.0, compile-write true (char d ∷ ps) h) refl
compile-write lazy (in_a_name ∷ in_a_name ∷ ps) h = absurd h
compile-write lazy (in_a_name ∷ in_a_path ∷ ps) h = absurd h
compile-write lazy (in_a_path ∷ ps) h = rw (compile-write true ps h) refl

-- The texts that a glob describes: a character for itself, characters other than a slash for `*`,
-- characters of a line for `**`.
abbrev pub Describes : List Piece → List ℕ → Type 0
Describes [] cs = cs ≡ []
Describes (char c ∷ ps) cs = (ds : List ℕ) × (cs ≡ c ∷ ds) × Describes ps ds
Describes (in_a_name ∷ ps) cs =
    (us : List ℕ) × (vs : List ℕ) × (cs ≡ us ++ vs)
    × All (λ c. in_name c ≡ true) us
    × Describes ps vs
Describes (in_a_path ∷ ps) cs =
    (us : List ℕ) × (vs : List ℕ) × (cs ≡ us ++ vs)
    × All (λ c. in_line c ≡ true) us
    × Describes ps vs

Describes-Denotes : (ps : List Piece) (cs : List ℕ) → Describes ps cs ↔ Denotes (map atom_of ps) cs
Describes-Denotes [] cs = (λ e. e, λ e. e)
Describes-Denotes (char c ∷ ps) cs = (
  λ (ds, e, h). (ds, e, (Describes-Denotes ps ds).0 h),
  λ (ds, e, h). (ds, e, (Describes-Denotes ps ds).1 h),
)
Describes-Denotes (in_a_name ∷ ps) cs = (
  λ (us, vs, e, a, h). (us, vs, e, a, (Describes-Denotes ps vs).0 h),
  λ (us, vs, e, a, h). (us, vs, e, a, (Describes-Denotes ps vs).1 h),
)
Describes-Denotes (in_a_path ∷ ps) cs = (
  λ (us, vs, e, a, h). (us, vs, e, a, (Describes-Denotes ps vs).0 h),
  λ (us, vs, e, a, h). (us, vs, e, a, (Describes-Denotes ps vs).1 h),
)

-- A rule on changed paths whose glob is written from characters, `*` and `**` never throws, and
-- passes exactly where the glob describes some changed path.
pub some_path_matches-Describes :
    (glob : String) (ps : List Piece) (paths : List String)
    → codes glob ≡ write ps
    → IsPlain ps
    → (passed : Bool) × (some_path_matches glob paths ≡ ok passed)
      × ((passed ≡ true) ↔ Some (λ p. Describes ps (codes p)) paths)
unfolding some_path_matches
some_path_matches-Describes glob ps [] e h = (false, refl, (λ q. cc, λ n. absurd n))
some_path_matches-Describes glob ps (p ∷ paths) e h =
    let made : compile false (codes glob) ≡ some (map atom_of ps) =
      rw e (compile-write false ps h) in
    let says = any_matches-Some (map atom_of ps) (p ∷ paths) in
    (
      any_matches (map atom_of ps) (p ∷ paths),
      rw (made, some_path_matches) refl,
      (
        λ q. Some-map _ _ (p ∷ paths) (λ x d. (Describes-Denotes ps (codes x)).1 d) (says.0 q),
        λ d. says.1 (Some-map _ _ (p ∷ paths) (λ x d. (Describes-Denotes ps (codes x)).0 d) d),
      ),
    )
