-- ===== src/Paging.antt =====
-- Pages of a list, as the list endpoints ask the database for them: `skip: (page - 1) * pageSize`,
-- `take: pageSize`. Pages count from one.
use social_monitor.Prelude.{
  ℕ, zero, suc, ◌+◌, ◌-◌, ◌*◌, ◌≡◌, refl, sym, ap, ◌∙◌, List, [], ◌∷◌, ◌++◌, take, drop, Option,
  none, some, arith, Text, truthy, if◌then◌else◌,
}
use social_monitor.Core.{or_default}
use social_monitor.Database.{DateRange}

-- `query.page ?? 1` and `query.pageSize ?? 20`
abbrev pub page_or_first : Option ℕ → ℕ
page_or_first p = or_default p 1

abbrev pub size_or_default : Option ℕ → ℕ
size_or_default s = or_default s 20

-- A date is truthy whenever it is there.
abbrev pub date_range : Option ℕ → Option ℕ → Option DateRange
date_range none none = none
date_range (some a) to = some (record { gte = some a; lte = to })
date_range none (some b) = some (record { gte = none; lte = some b })

-- A filter on a string is set where the string is truthy.
abbrev pub when_truthy : Option Text → Option Text
when_truthy s = if truthy s then s else none

module _ {ℓ} {A : Type ℓ} where
  abbrev pub page_of : ℕ → ℕ → List A → List A
  page_of page size l = take size (drop ((page - 1) * size) l)

  -- The first `k` pages, one after the other.
  abbrev pub pages : ℕ → ℕ → List A → List A
  pages zero size l = []
  pages (suc k) size l = pages k size l ++ page_of (suc k) size l

  take-nil : (n : ℕ) → take {A = A} n [] ≡ []
  take-nil zero = refl
  take-nil (suc n) = refl

  take-add : (m n : ℕ) (l : List A) → take m l ++ take n (drop m l) ≡ take (m + n) l
  take-add zero n l = let e : n ≡ 0 + n = omega arith in ap (λ k. take k l) e
  take-add (suc m) n [] = take-nil n ∙ sym (take-nil (suc m + n))
  take-add (suc m) n (x ∷ l) =
      let e : suc (m + n) ≡ suc m + n = omega arith in
      ap (λ r. x ∷ r) (take-add m n l) ∙ ap (λ k. take k (x ∷ l)) e

  -- Page after page gives the list from its front, with nothing skipped and nothing twice.
  pub pages-take : (k size : ℕ) (l : List A) → pages k size l ≡ take (k * size) l
  pages-take zero size l = let e : 0 ≡ 0 * size = omega arith in ap (λ n. take n l) e
  pages-take (suc k) size l =
      let e : suc k - 1 ≡ k = omega arith in
      let f : k * size + size ≡ suc k * size = grind arith in
      rw e (
        ap (λ r. r ++ take size (drop (k * size) l)) (pages-take k size l)
        ∙ (take-add (k * size) size l ∙ ap (λ n. take n l) f))
