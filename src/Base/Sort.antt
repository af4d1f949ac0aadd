-- ===== src/Base/Sort.antt =====
-- `sort.Slice` with a comparison that is a strict weak order: insertion sort. Where the comparison
-- separates any two items, every sorting algorithm returns this list.
use mathlib.Core.Path.{◌≡◌}
use mathlib.Core.Logic.{◌⊎◌, inl, inr}
use mathlib.Core.Bool.{Bool, true, false}
use mathlib.Core.List.{List, [], ◌∷◌}
use native.Mathlib.Omega.{arith}
use filelist_streaming_servi.Base.Tests.{if◌then◌else◌, Bool-cases}
use filelist_streaming_servi.Base.Lists.{All, In}

module _ {A : Type 0} (less : A → A → Bool) where
  unfoldable pub insert : A → List A → List A
  insert x [] = x ∷ []
  insert x (y ∷ ys) = if less y x then y ∷ insert x ys else x ∷ y ∷ ys

  unfoldable pub sort : List A → List A
  unfolding insert
  sort [] = []
  sort (x ∷ xs) = insert x (sort xs)

  In-of_In-insert : (a x : A) (xs : List A) → In a (insert x xs) → (a ≡ x) ⊎ In a xs
  unfolding insert
  In-of_In-insert a x [] m = m
  In-of_In-insert a x (y ∷ ys) m = ground (arith, In-of_In-insert a x ys)

  In-insert : (a x : A) (xs : List A) → (a ≡ x) ⊎ In a xs → In a (insert x xs)
  unfolding insert
  In-insert a x [] m = m
  In-insert a x (y ∷ ys) m = ground (arith, In-insert a x ys)

  -- Sorting keeps the items.
  pub In-of_In-sort : (a : A) (xs : List A) → In a (sort xs) → In a xs
  unfolding sort
  In-of_In-sort a [] m = m
  In-of_In-sort a (x ∷ xs) m = ground (arith, In-of_In-insert a x (sort xs) m, In-of_In-sort a xs)

  pub In-sort : (a : A) (xs : List A) → In a xs → In a (sort xs)
  unfolding sort
  In-sort a [] m = m
  In-sort a (x ∷ xs) m = In-insert a x (sort xs) (ground (arith, In-sort a xs))

  -- No item comes before the first one.
  abbrev pub FirstIsLeast : List A → Type 0
  FirstIsLeast [] = Unit
  FirstIsLeast (x ∷ xs) = All (λ y. less y x ≡ false) (x ∷ xs)

module _ {A : Type 0} (less : A → A → Bool) (asym : (a b : A) → less a b ≡ true → less b a ≡ false)
    (neg_trans : (a b c : A) → less b a ≡ false → less c b ≡ false → less c a ≡ false) where
  irreflexive : (a : A) → less a a ≡ false
  irreflexive a = ground (arith, asym a a)

  All-least :
      (x y : A) (ys : List A)
      → less y x ≡ false
      → All (λ c. less c y ≡ false) ys
      → All (λ c. less c x ≡ false) ys
  All-least x y [] h a = tt
  All-least x y (c ∷ cs) h a = (neg_trans x y c h a.0, All-least x y cs h a.1)

  All-insert :
      (x y : A) (ys : List A)
      → less x y ≡ false
      → All (λ c. less c y ≡ false) ys
      → All (λ c. less c y ≡ false) (insert less x ys)
  unfolding insert
  All-insert x y [] h a = (h, tt)
  All-insert x y (c ∷ cs) h a = elim (Bool-cases (less c x)) [
    | inl e ↦ rw e (a.0, All-insert x y cs h a.1)
    | inr e ↦ rw e (h, a)
  ]

  FirstIsLeast-insert :
      (x : A) (ys : List A) → FirstIsLeast less ys → FirstIsLeast less (insert less x ys)
  unfolding insert
  FirstIsLeast-insert x [] h = (irreflexive x, tt)
  FirstIsLeast-insert x (y ∷ ys) h = elim (Bool-cases (less y x)) [
    | inl e ↦ rw e (h.0, All-insert x y ys (asym y x e) h.1)
    | inr e ↦ rw e (irreflexive x, (e, All-least x y ys e h.1))
  ]

  pub FirstIsLeast-sort : (xs : List A) → FirstIsLeast less (sort less xs)
  unfolding sort
  FirstIsLeast-sort [] = tt
  FirstIsLeast-sort (x ∷ xs) = FirstIsLeast-insert x (sort less xs) (FirstIsLeast-sort xs)
