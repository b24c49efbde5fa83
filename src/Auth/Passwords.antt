-- ===== src/Auth/Passwords.antt =====
-- src/auth/password.ts, over the platform's key derivation and base64url coding.
use Prim.Native.String.append
use Prim.Native.String.{◌++◌}
use text.Mathlib.TextLemmas.{append_assoc}
use jagalchi_api.Base.{
  ℕ, String, Bool, true, false, Option, none, some, List, [], ◌∷◌, ◌&&◌, ◌||◌, ◌≡◌, refl, not,
  str_eq, ltb, ◌==◌, if◌then◌else◌, length, units, split_on, split_on-append, split_on-lacks, lacks,
  arith, sym, subst, ap, ◌∙◌, if_eq, str_ne, str_ne,
}
use jagalchi_api.Auth.Types.{Runtime}

abbrev pub min_password_length : ℕ
min_password_length = 10

abbrev pub max_password_length : ℕ
max_password_length = 128

-- `validatePassword`: whether it returns.
unfoldable pub validate_password : String → Bool
validate_password password =
    let n = length (units password) in not (ltb n min_password_length || ltb max_password_length n)

-- `timingSafeEqual` of two buffers of one length, and their lengths.
unfoldable pub same_bytes : List ℕ → List ℕ → Bool
same_bytes [] [] = true
same_bytes (x ∷ xs) (y ∷ ys) = (x == y) && same_bytes xs ys
same_bytes _ _ = false

abbrev pub is_empty : String → Bool
is_empty s = str_eq s ""

module _ (rt : Runtime) where
  abbrev encode_password : String → List ℕ → String
  encode_password password salt =
      "scrypt$" ++ (rt.base64url salt ++ ("$" ++ rt.base64url (rt.scrypt password salt)))

  -- `hashPassword`: `none` where `validatePassword` throws; `salt` is what `randomBytes` gave.
  unfoldable pub hash_password : String → List ℕ → Option String
  unfolding validate_password
  hash_password password salt =
      if validate_password password then some (encode_password password salt) else none

  -- The parts of an encoded password; a missing part is falsy, as an empty one is.
  unfoldable pub verify_parts : String → List String → Bool
  unfolding same_bytes
  verify_parts password (algorithm ∷ salt ∷ hash ∷ _) =
      str_eq algorithm "scrypt"
      && not (is_empty salt)
      && not (is_empty hash)
      && same_bytes (rt.scrypt password (rt.from_base64url salt)) (rt.from_base64url hash)
  verify_parts password _ = false

  -- `verifyPassword`
  unfoldable pub verify_password : String → String → Bool
  unfolding verify_parts split_on
  verify_password password encoded = verify_parts password (split_on 36 encoded)

same_bytes_refl : (xs : List ℕ) → same_bytes xs xs ≡ true
unfolding same_bytes
same_bytes_refl [] = refl
same_bytes_refl (x ∷ xs) = ground (arith, same_bytes_refl xs)

-- What the coding of some bytes as text is documented to do: it is read back, it is not empty, and
-- it has no dollar sign.
abbrev pub IsCoded : Runtime → List ℕ → Type 0
IsCoded rt bytes =
    (rt.from_base64url (rt.base64url bytes) ≡ bytes)
    × (lacks 36 (rt.base64url bytes) ≡ true)
    × (is_empty (rt.base64url bytes) ≡ false)

dollar : (t : String) → "$" ++ t ≡ String.◌∷◌ "$" t
dollar t = append.cons "$" "" t ∙ ap (λ u. String.◌∷◌ "$" u) (append.nil t)

literal : (t : String) → "scrypt$" ++ t ≡ "scrypt" ++ String.◌∷◌ "$" t
literal t = append_assoc "scrypt" "$" t ∙ ap (λ u. "scrypt" ++ u) (dollar t)

parts-encode :
    (salt hash : String)
    → lacks 36 salt ≡ true
    → lacks 36 hash ≡ true
    → split_on 36 ("scrypt$" ++ (salt ++ ("$" ++ hash))) ≡ "scrypt" ∷ salt ∷ hash ∷ []
unfolding lacks
parts-encode salt hash hs hh =
    subst (λ t. split_on 36 t ≡ "scrypt" ∷ salt ∷ hash ∷ []) (sym (literal _))
      (rw (dollar hash) (
        split_on-append 36 "scrypt" "$" (salt ++ String.◌∷◌ "$" hash) refl refl
        ∙ ap (λ ps. "scrypt" ∷ ps)
            (split_on-append 36 salt "$" hash hs refl
              ∙ ap (λ ps. salt ∷ ps) (split_on-lacks 36 hash hh))))

-- A password is verified against its own encoding, whatever the salt, wherever the coding of the
-- salt and of the derived key is read back.
pub verify_password-hash_password :
    (rt : Runtime) (password : String) (salt : List ℕ) (encoded : String)
    → IsCoded rt salt
    → IsCoded rt (rt.scrypt password salt)
    → hash_password rt password salt ≡ some encoded
    → verify_password rt password encoded ≡ true
unfolding hash_password verify_password verify_parts
verify_password-hash_password rt password salt encoded hs hd h =
    if_eq (validate_password password) h
      (λ _ e.
        let same : encode_password rt password salt ≡ encoded = cc in
        subst (λ t. verify_password rt password t ≡ true) same
          (rw
            (
              parts-encode (rt.base64url salt) (rt.base64url (rt.scrypt password salt)) hs.1 hd.1,
              verify_parts,
              hs.2,
              hd.2,
              hs.0,
              hd.0,
              same_bytes_refl (rt.scrypt password salt),
            )
            refl))
      (λ _ e. cc)

-- An encoded password is a text of its own.
pub hash_password-full :
    (rt : Runtime) (password : String) (salt : List ℕ) (encoded : String)
    → IsCoded rt salt
    → IsCoded rt (rt.scrypt password salt)
    → hash_password rt password salt ≡ some encoded
    → is_empty encoded ≡ false
unfolding hash_password split_on
hash_password-full rt password salt encoded hs hd h =
    if_eq (validate_password password) h
      (λ _ e.
        let same : encode_password rt password salt ≡ encoded = cc in
        str_ne (λ q.
          let parts =
            parts-encode (rt.base64url salt) (rt.base64url (rt.scrypt password salt)) hs.1 hd.1 in
          clash (sym (ap (λ t. split_on 36 t) (same ∙ q)) ∙ parts)))
      (λ _ e. cc)
  where
    clash : {a b : String} → split_on 36 "" ≡ "scrypt" ∷ a ∷ b ∷ [] → ⊥
    clash q = cc
