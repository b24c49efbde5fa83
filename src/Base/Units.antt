-- ===== src/Base/Units.antt =====
-- Texts that the program cuts or reads letter by letter: the list of their UTF-16 units, which is
-- what the indices of JavaScript count.
use Prim.Native.Nat.{ℕ, ◌+◌, ◌-◌, ◌/◌, ◌%◌}
use Prim.Native.Char.{Char, code}
use Prim.Native.String.{String, ◌++◌}
use Prim.Native.String.append
use mathlib.Core.Path.{◌≡◌, refl}
use mathlib.Core.Bool.{Bool, true, false, ◌&&◌, not}
use mathlib.Core.List.{List, [], ◌∷◌}
use native.Mathlib.Omega.{arith}
use jagalchi_api.Base.Tests.{ltb, ◌==◌, if◌then◌else◌}

-- A code point from U+10000 on is a pair of surrogates.
unfoldable pub units : String → List ℕ
units String.[] = []
units (String.◌∷◌ c s) =
    let rest = units s in
    if ltb (code c) 0x10000
    then code c ∷ rest
    else (0xd800 + (code c - 0x10000) / 1024) ∷ (0xdc00 + (code c - 0x10000) % 1024) ∷ rest

-- `text.startsWith(prefix)`
unfoldable pub has_prefix : List ℕ → List ℕ → Bool
has_prefix [] t = true
has_prefix (p ∷ ps) [] = false
has_prefix (p ∷ ps) (c ∷ cs) = (p == c) && has_prefix ps cs

-- `text.split(separator)` by one character, and `text.length`.
prepend : Char → List String → List String
prepend c [] = (String.◌∷◌ c String.[]) ∷ []
prepend c (p ∷ ps) = String.◌∷◌ c p ∷ ps

unfoldable pub split_on : ℕ → String → List String
unfolding prepend
split_on d String.[] = String.[] ∷ []
split_on d (String.◌∷◌ c s) =
    let rest = split_on d s in if code c == d then String.[] ∷ rest else prepend c rest

-- No character of the text is the separator.
unfoldable pub lacks : ℕ → String → Bool
lacks d String.[] = true
lacks d (String.◌∷◌ c s) = not (code c == d) && lacks d s

-- The text before the first separator is the first part.
pub split_on-append :
    (d : ℕ) (s : String) (c : Char) (t : String)
    → lacks d s ≡ true
    → (code c == d) ≡ true
    → split_on d (s ++ String.◌∷◌ c t) ≡ s ∷ split_on d t
unfolding split_on lacks prepend
split_on-append d String.[] c t h e = rw (append.nil (String.◌∷◌ c t), e, split_on) refl
split_on-append d (String.◌∷◌ k s) c t h e =
    rw (append.cons k s (String.◌∷◌ c t)) (ground (arith, split_on-append d s c t))

-- A text without the separator is one part.
pub split_on-lacks : (d : ℕ) (s : String) → lacks d s ≡ true → split_on d s ≡ s ∷ []
unfolding split_on lacks prepend
split_on-lacks d String.[] h = refl
split_on-lacks d (String.◌∷◌ k s) h = ground (arith, split_on-lacks d s)
