-- ===== src/Evaluator/Globs.antt =====
-- `pathMatches` (src/verification-providers/verification-evaluator.ts). The regular expression that it
-- builds is a list of atoms: a character, any characters but slashes for `*`, any characters of a
-- line for `**` or for a NUL, and what a question mark, which is not escaped, makes of the atom before.
use Prim.Native.Char.{code}
use jagalchi_api.Base.{
  ℕ, String, Bool, true, false, Option, none, some, List, [], ◌∷◌, ◌&&◌, ◌||◌, not, ◌==◌,
  if◌then◌else◌,
}

-- The characters of a text: an expression with the flag `u` reads code points.
unfoldable pub codes : String → List ℕ
codes String.[] = []
codes (String.◌∷◌ c s) = code c ∷ codes s

pub data Atom : Type 0 where
  lit : ℕ → Atom
  maybe : ℕ → Atom
  star : Atom
  any_line : Atom

abbrev pub slash : ℕ
slash = 47

abbrev more : Atom → Option (List Atom) → Option (List Atom)
more a none = none
more a (some rest) = some (a ∷ rest)

-- The expression, from left to right; `none` where its constructor throws. The flag says whether a
-- question mark may come next: after a quantifier, which one more makes lazy. A character is read with
-- the question mark that follows it.
unfoldable pub compile : Bool → List ℕ → Option (List Atom)
compile lazy [] = some []
compile lazy (c ∷ []) =
    if c == 42
    then some (star ∷ [])
    else if c == 0
    then some (any_line ∷ [])
    else if c == 63
    then if lazy then some [] else none
    else some (lit c ∷ [])
compile lazy (c ∷ d ∷ cs) =
    let quantified = compile true (d ∷ cs) in
    let doubled = compile true cs in
    let plain = compile false (d ∷ cs) in
    if c == 42
    then if d == 42 then more any_line doubled else more star quantified
    else if c == 0
    then more any_line quantified
    else if c == 63
    then if lazy then plain else none
    else if d == 63
    then more (maybe c) doubled
    else more (lit c) plain

-- `.` matches no line terminator.
abbrev pub in_line : ℕ → Bool
in_line c = not (c == 10 || c == 13 || c == 0x2028 || c == 0x2029)

abbrev pub in_name : ℕ → Bool
in_name c = not (c == slash)

-- A loop over a class of characters, and what follows it.
unfoldable pub loop : (ℕ → Bool) → (List ℕ → Bool) → List ℕ → Bool
loop p k [] = k []
loop p k (c ∷ cs) = let further = loop p k cs in k (c ∷ cs) || (p c && further)

unfoldable pub eat : ℕ → (List ℕ → Bool) → List ℕ → Bool
eat c k [] = false
eat c k (d ∷ ds) = (d == c) && k ds

-- `test` of an expression that is anchored at both ends.
unfoldable pub matches : List Atom → List ℕ → Bool
unfolding loop eat
matches [] [] = true
matches [] (_ ∷ _) = false
matches (lit c ∷ rest) cs = eat c (matches rest) cs
matches (maybe c ∷ rest) cs = eat c (matches rest) cs || matches rest cs
matches (star ∷ rest) cs = loop in_name (matches rest) cs
matches (any_line ∷ rest) cs = loop in_line (matches rest) cs
