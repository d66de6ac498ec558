-- ===== src/Prelude/Sort.antt =====
-- `sort.Slice` and `sort.Strings`, as an insertion sort. Go leaves the order of equal elements open;
-- here they stay in their order.
use Prim.Native.Nat.{ℕ, ◌≤◌}
use mathlib.Core.Bool.{Bool}
use mathlib.Core.List.{List, [], ◌∷◌, Perm, Memᴰ}
use mathlib.Core.List.Memᴰ
use mathlib.Core.Logic.{inl, inr}
use mathlib.Core.List.Perm
use native.Mathlib.Omega.{arith}
use for_visibility.Prelude.Tests.{leb, if◌then◌else◌, if-cases, leb→le}
use for_visibility.Prelude.Lists.{All, All-map}

module _ {ℓ} {A : Type ℓ} where
  insert_by : (A → A → Bool) → A → List A → List A
  insert_by le x [] = x ∷ []
  insert_by le x (y ∷ ys) = if le x y then x ∷ y ∷ ys else y ∷ insert_by le x ys

  unfoldable pub sort_by : (A → A → Bool) → List A → List A
  unfolding insert_by
  sort_by le [] = []
  sort_by le (x ∷ xs) = insert_by le x (sort_by le xs)

  insert_by-Perm : (le : A → A → Bool) (x : A) (xs : List A) → Perm (insert_by le x xs) (x ∷ xs)
  unfolding insert_by
  insert_by-Perm le x [] = Perm.refl _
  insert_by-Perm le x (y ∷ ys) =
      if-cases (λ zs. Perm zs (x ∷ y ∷ ys)) (le x y) (x ∷ y ∷ ys) (y ∷ insert_by le x ys)
        (λ _. Perm.refl _)
        (λ _. Perm.trans (Perm.cons y (insert_by-Perm le x ys)) (Perm.swap x y ys))

  pub sort_by-Perm : (le : A → A → Bool) (xs : List A) → Perm (sort_by le xs) xs
  unfolding sort_by
  sort_by-Perm le [] = Perm.refl _
  sort_by-Perm le (x ∷ xs) =
      Perm.trans (insert_by-Perm le x (sort_by le xs)) (Perm.cons x (sort_by-Perm le xs))

module _ {ℓ} {A : Type ℓ} (key : A → ℕ) where
  -- by a number, smallest first
  abbrev pub sort_on : List A → List A
  sort_on xs = sort_by (λ x y. leb (key x) (key y)) xs

  abbrev pub IsSorted : List A → Type 0
  IsSorted [] = Unit
  IsSorted (x ∷ xs) = All (λ y. key x ≤ key y) xs × IsSorted xs

  insert_on-All :
      (k : ℕ) (x : A) (xs : List A)
      → k ≤ key x
      → All (λ y. k ≤ key y) xs
      → All (λ y. k ≤ key y) (insert_by (λ x y. leb (key x) (key y)) x xs)
  unfolding insert_by
  insert_on-All k x [] h a = (h, tt)
  insert_on-All k x (y ∷ ys) h a =
      if-cases (All (λ z. k ≤ key z)) (leb (key x) (key y)) _ _ (λ _. (h, a))
        (λ _. (a.0, insert_on-All k x ys h a.1))

  insert_on-IsSorted :
      (x : A) (xs : List A) → IsSorted xs → IsSorted (insert_by (λ x y. leb (key x) (key y)) x xs)
  unfolding insert_by
  insert_on-IsSorted x [] s = (tt, tt)
  insert_on-IsSorted x (y ∷ ys) s =
      if-cases IsSorted (leb (key x) (key y)) _ _
        (λ le. (
          (
            leb→le (key x) (key y) le,
            All-map (λ z h. omega (arith, h, leb→le (key x) (key y) le)) ys s.0,
          ),
          s,
        ))
        (λ gt. (insert_on-All (key y) x ys (ground arith) s.0, insert_on-IsSorted x ys s.1))

  pub sort_on-IsSorted : (xs : List A) → IsSorted (sort_on xs)
  unfolding sort_by
  sort_on-IsSorted [] = tt
  sort_on-IsSorted (x ∷ xs) = insert_on-IsSorted x (sort_on xs) (sort_on-IsSorted xs)

module _ {ℓ} {A : Type ℓ} (le : A → A → Bool) where
  insert_by-All {κ} :
      (P : A → Type κ) (x : A) (ys : List A) → P x → All P ys → All P (insert_by le x ys)
  unfolding insert_by
  insert_by-All P x [] p h = (p, tt)
  insert_by-All P x (y ∷ ys) p (q, h) =
      if-cases (All P) (le x y) (x ∷ y ∷ ys) (y ∷ insert_by le x ys) (λ _. (p, (q, h)))
        (λ _. (q, insert_by-All P x ys p h))

  pub sort_by-All {κ} : (P : A → Type κ) (xs : List A) → All P xs → All P (sort_by le xs)
  unfolding sort_by
  sort_by-All P [] h = h
  sort_by-All P (x ∷ xs) (p, h) = insert_by-All P x (sort_by le xs) p (sort_by-All P xs h)

  insert_by-Memᴰ : (a x : A) (ys : List A) → Memᴰ a (x ∷ ys) → Memᴰ a (insert_by le x ys)
  unfolding insert_by
  insert_by-Memᴰ a x [] m = m
  insert_by-Memᴰ a x (y ∷ ys) m =
      if-cases (Memᴰ a) (le x y) (x ∷ y ∷ ys) (y ∷ insert_by le x ys) (λ _. m)
        (λ _. elim (Memᴰ.cases_cons m) [
          | inl e ↦ Memᴰ.tail (insert_by-Memᴰ a x ys (Memᴰ.head e))
          | inr rest ↦ elim (Memᴰ.cases_cons rest) [
            | inl e ↦ Memᴰ.head e
            | inr later ↦ Memᴰ.tail (insert_by-Memᴰ a x ys (Memᴰ.tail later))
          ]
        ])

  pub sort_by-Memᴰ : (a : A) (xs : List A) → Memᴰ a xs → Memᴰ a (sort_by le xs)
  unfolding sort_by
  sort_by-Memᴰ a [] m = m
  sort_by-Memᴰ a (x ∷ xs) m = insert_by-Memᴰ a x (sort_by le xs) (elim (Memᴰ.cases_cons m) [
    | inl e ↦ Memᴰ.head e
    | inr later ↦ Memᴰ.tail (sort_by-Memᴰ a xs later)
  ])
