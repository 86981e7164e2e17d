-- ===== src/Messages/Queries/Newest.antt =====
-- The order `publishedAt: "desc"` of messages/message.service.ts, where no two times are equal.
use social_monitor.Prelude.{
  ℕ, suc, ◌≡◌, refl, ap, ◌∙◌, Bool, true, false, not, ◌&&◌, eqb, leb, ltb, List, [], ◌∷◌, map,
  arith, if◌then◌else◌, length, Bool-cases, inl, inr,
}
use mathlib.Core.List.{Perm}
use mathlib.Core.List.Perm

module _ {A : Type 0} (key : A → ℕ) where
  abbrev pub below : ℕ → List A → Bool
  below t [] = true
  below t (y ∷ ys) = ltb (key y) t && below t ys

  -- Strictly newest first, so that no two are of one time.
  abbrev pub descending : List A → Bool
  descending [] = true
  descending (x ∷ xs) = below (key x) xs && descending xs

  abbrev pub differs : ℕ → List A → Bool
  differs t [] = true
  differs t (y ∷ ys) = not (eqb (key y) t) && differs t ys

  -- No two are of one time.
  abbrev pub untied : List A → Bool
  untied [] = true
  untied (x ∷ xs) = differs (key x) xs && untied xs

  abbrev pub insert_newest : A → List A → List A
  insert_newest a [] = a ∷ []
  insert_newest a (x ∷ xs) =
      let rest = insert_newest a xs in if leb (key x) (key a) then a ∷ x ∷ xs else x ∷ rest

  abbrev pub newest_first : List A → List A
  newest_first [] = []
  newest_first (x ∷ xs) = insert_newest x (newest_first xs)

  below_insert :
      (t : ℕ) (a : A) (l : List A)
      → ltb (key a) t ≡ true
      → below t l ≡ true
      → below t (insert_newest a l) ≡ true
  below_insert t a [] h k = ground arith
  below_insert t a (x ∷ xs) h k = ground (arith, below_insert t a xs)

  differs_insert :
      (t : ℕ) (a : A) (l : List A)
      → eqb (key a) t ≡ false
      → differs t l ≡ true
      → differs t (insert_newest a l) ≡ true
  differs_insert t a [] h k = ground arith
  differs_insert t a (x ∷ xs) h k = ground (arith, differs_insert t a xs)

  differs_newest : (t : ℕ) (l : List A) → differs t l ≡ true → differs t (newest_first l) ≡ true
  differs_newest t [] h = refl
  differs_newest t (x ∷ xs) h =
      differs_insert t x (newest_first xs) (ground arith) (differs_newest t xs (ground arith))

  below_more : (t u : ℕ) (l : List A) → leb t u ≡ true → below t l ≡ true → below u l ≡ true
  below_more t u [] h k = refl
  below_more t u (x ∷ xs) h k = ground (arith, below_more t u xs)

  descending_insert :
      (a : A) (l : List A)
      → differs (key a) l ≡ true
      → descending l ≡ true
      → descending (insert_newest a l) ≡ true
  descending_insert a [] h k = refl
  descending_insert a (x ∷ xs) h k = elim (Bool-cases (leb (key x) (key a))) [
    | inl e ↦ let all = below_more (key x) (key a) xs e (ground arith) in ground arith
    | inr e ↦
        let rest = descending_insert a xs (ground arith) (ground arith) in
        let all = below_insert (key x) a xs (ground arith) (ground arith) in ground arith
  ]

  pub descending-newest_first : (l : List A) → untied l ≡ true → descending (newest_first l) ≡ true
  descending-newest_first [] h = refl
  descending-newest_first (x ∷ xs) h =
      descending_insert x (newest_first xs) (differs_newest (key x) xs (ground arith))
        (descending-newest_first xs (ground arith))

  insert-Perm : (a : A) (l : List A) → Perm (insert_newest a l) (a ∷ l)
  insert-Perm a [] = Perm.refl (a ∷ [])
  insert-Perm a (x ∷ xs) = elim (Bool-cases (leb (key x) (key a))) [
    | inl e ↦ rw e (Perm.refl (a ∷ x ∷ xs))
    | inr e ↦ rw e (Perm.trans (Perm.cons x (insert-Perm a xs)) (Perm.swap a x xs))
  ]

  pub newest_first-Perm : (l : List A) → Perm (newest_first l) l
  newest_first-Perm [] = Perm.nil
  newest_first-Perm (x ∷ xs) =
      Perm.trans (insert-Perm x (newest_first xs)) (Perm.cons x (newest_first-Perm xs))

  length-insert : (a : A) (l : List A) → length (insert_newest a l) ≡ suc (length l)
  length-insert a [] = refl
  length-insert a (x ∷ xs) = elim (Bool-cases (leb (key x) (key a))) [
    | inl e ↦ rw e refl
    | inr e ↦ rw e (ap suc (length-insert a xs))
  ]

  pub length-newest_first : (l : List A) → length (newest_first l) ≡ length l
  length-newest_first [] = refl
  length-newest_first (x ∷ xs) = length-insert x (newest_first xs) ∙ ap suc (length-newest_first xs)

module _ {A B : Type 0} (key : A → ℕ) (key' : B → ℕ) (f : A → B)
    (same : (a : A) → key' (f a) ≡ key a) where
  below-map : (t : ℕ) (l : List A) → below key' t (map f l) ≡ below key t l
  below-map t [] = refl
  below-map t (x ∷ xs) = rw (same x, below-map t xs) refl

  pub descending-map : (l : List A) → descending key' (map f l) ≡ descending key l
  descending-map [] = refl
  descending-map (x ∷ xs) = rw (same x, below-map (key x) xs, descending-map xs) refl
