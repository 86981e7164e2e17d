-- ===== src/Splitting.antt =====
-- `split` at a code unit, as auth/auth.service.ts and crypto/encryption.service.ts take texts apart.
use social_monitor.Prelude.{
  ℕ, ◌≡◌, refl, Text, Bool, true, false, not, ◌&&◌, eqb, List, [], ◌∷◌, ◌++◌, arith, if◌then◌else◌,
}

-- The code unit of ".".
abbrev pub dot : ℕ
dot = 46

abbrev pub put_first : ℕ → List Text → List Text
put_first x [] = (x ∷ []) ∷ []
put_first x (part ∷ parts) = (x ∷ part) ∷ parts

unfoldable pub split : ℕ → Text → List Text
split c [] = [] ∷ []
split c (x ∷ xs) = let rest = split c xs in if eqb x c then [] ∷ rest else put_first x rest

abbrev pub is_free_of : ℕ → Text → Bool
is_free_of c [] = true
is_free_of c (x ∷ xs) = not (eqb x c) && is_free_of c xs

pub split_whole : (c : ℕ) (a : Text) → is_free_of c a ≡ true → split c a ≡ a ∷ []
unfolding split
split_whole c [] h = refl
split_whole c (x ∷ xs) h =
    let ih = split_whole c xs (ground arith) in
    let e : eqb x c ≡ false = ground arith in rw (e, ih) refl

pub split_first :
    (c : ℕ) (a b : Text) → is_free_of c a ≡ true → split c (a ++ (c ∷ b)) ≡ a ∷ split c b
unfolding split
split_first c [] b h = let e : eqb c c ≡ true = ground arith in rw e refl
split_first c (x ∷ xs) b h =
    let ih = split_first c xs b (ground arith) in
    let e : eqb x c ≡ false = ground arith in rw (e, ih) refl
