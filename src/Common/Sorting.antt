-- ===== src/Common/Sorting.antt =====
-- `sorted` and `set` over lists.
use mathlib.Core.Path.{◌≡◌, refl}
use mathlib.Core.Logic.{◌⊎◌, inl, inr}
use mathlib.Core.Bool.{Bool, true, ◌||◌}
use mathlib.Core.List.{List, [], ◌∷◌}
use native.Mathlib.Omega.{arith}
use forge_ai_autonomous_soft.Common.Tests.{if◌then◌else◌, Eq, ◌==◌, Bool-cases}
use forge_ai_autonomous_soft.Common.Lists.{elem, IsNodup, All}

-- A stable sort by a Boolean order: an element goes before the first that is not below it.
module _ {ℓ} {A : Type ℓ} (le : A → A → Bool) where
  abbrev pub insert_sorted : A → List A → List A
  insert_sorted x [] = x ∷ []
  insert_sorted x (y ∷ ys) = if le x y then x ∷ y ∷ ys else y ∷ insert_sorted x ys

  abbrev pub sort : List A → List A
  sort [] = []
  sort (x ∷ xs) = insert_sorted x (sort xs)

  abbrev pub IsSorted : List A → Type 0
  IsSorted [] = Unit
  IsSorted (x ∷ xs) = All (λ y. le x y ≡ true) xs × IsSorted xs

module _ {ℓ} {A : Type ℓ} (le : A → A → Bool)
    (total : (a b : A) → (le a b ≡ true) ⊎ (le b a ≡ true))
    (trans : (a b c : A) → le a b ≡ true → le b c ≡ true → le a c ≡ true) where
  All-above :
      (x y : A) (ys : List A)
      → le x y ≡ true
      → All (λ z. le y z ≡ true) ys
      → All (λ z. le x z ≡ true) ys
  All-above x y [] h k = tt
  All-above x y (z ∷ ys) h k = (trans x y z h k.0, All-above x y ys h k.1)

  above-insert :
      (x y : A) (ys : List A)
      → le y x ≡ true
      → All (λ z. le y z ≡ true) ys
      → All (λ z. le y z ≡ true) (insert_sorted le x ys)
  above-insert x y [] h k = (h, tt)
  above-insert x y (z ∷ ys) h k = elim (Bool-cases (le x z)) [
    | inl below ↦ rw below (h, k)
    | inr above ↦ rw above (k.0, above-insert x y ys h k.1)
  ]

  insert-IsSorted : (x : A) (ys : List A) → IsSorted le ys → IsSorted le (insert_sorted le x ys)
  insert-IsSorted x [] h = (tt, tt)
  insert-IsSorted x (y ∷ ys) h = elim (Bool-cases (le x y)) [
    | inl below ↦ rw below ((below, All-above x y ys below h.0), h)
    | inr above ↦
        rw above (above-insert x y ys (ground (arith, total x y)) h.0, insert-IsSorted x ys h.1)
  ]

  pub sort-IsSorted : (xs : List A) → IsSorted le (sort le xs)
  sort-IsSorted [] = tt
  sort-IsSorted (x ∷ xs) = insert-IsSorted x (sort le xs) (sort-IsSorted xs)

module _ {ℓ} {A : Type ℓ} ⦃e : Eq A⦄ where
  pub elem-insert_sorted :
      (le : A → A → Bool) (a x : A) (ys : List A)
      → elem a (insert_sorted le x ys) ≡ (a == x || elem a ys)
  elem-insert_sorted le a x [] = refl
  elem-insert_sorted le a x (y ∷ ys) = ground (arith, elem-insert_sorted le a x ys)

  pub elem-sort : (le : A → A → Bool) (a : A) (xs : List A) → elem a (sort le xs) ≡ elem a xs
  elem-sort le a [] = refl
  elem-sort le a (x ∷ xs) =
      ground (arith, elem-insert_sorted le a x (sort le xs), elem-sort le a xs)

  -- `set(xs)`, as a list with no element twice.
  abbrev pub dedup : List A → List A
  dedup [] = []
  dedup (x ∷ xs) = if elem x (dedup xs) then dedup xs else x ∷ dedup xs

  pub elem-dedup : (a : A) (xs : List A) → elem a (dedup xs) ≡ elem a xs
  elem-dedup a [] = refl
  elem-dedup a (x ∷ xs) = ground (arith, elem-dedup a xs, elem-dedup x xs, (e.beq_iff a x).0)

  pub dedup-IsNodup : (xs : List A) → IsNodup (dedup xs)
  dedup-IsNodup [] = tt
  dedup-IsNodup (x ∷ xs) = elim (Bool-cases (elem x (dedup xs))) [
    | inl old ↦ rw old (dedup-IsNodup xs)
    | inr new ↦ rw new (new, dedup-IsNodup xs)
  ]
