-- ===== src/Prelude/Sorting.antt =====
-- Python's `sorted`: a stable sort, by insertion, with the order that `leb` decides.
use mathlib.Core.Path.{◌≡◌, refl}
use mathlib.Core.Logic.{◌⊎◌, inl, inr}
use mathlib.Core.Bool.{Bool, true, false}
use mathlib.Core.List.{List, [], ◌∷◌, Perm}
use mathlib.Core.List.Perm

module _ {ℓ} {A : Type ℓ} (leb : A → A → Bool) where
  unfoldable pub insert_by : A → List A → List A
  insert_by x [] = x ∷ []
  insert_by x (y ∷ ys) = elim (leb x y) [ true ↦ x ∷ y ∷ ys | false ↦ y ∷ insert_by x ys ]

  unfoldable pub sort_by : List A → List A
  unfolding insert_by
  sort_by [] = []
  sort_by (x ∷ xs) = insert_by x (sort_by xs)

  -- `x` is no greater than any of them
  abbrev pub IsLeast : A → List A → Type 0
  IsLeast x [] = Unit
  IsLeast x (y ∷ ys) = (leb x y ≡ true) × IsLeast x ys

  abbrev pub IsSortedBy : List A → Type 0
  IsSortedBy [] = Unit
  IsSortedBy (x ∷ xs) = IsLeast x xs × IsSortedBy xs

  decided : (b : Bool) → (b ≡ true) ⊎ (b ≡ false)
  decided true = inl refl
  decided false = inr refl

  insert_by-perm : (x : A) (ys : List A) → Perm (insert_by x ys) (x ∷ ys)
  unfolding insert_by
  insert_by-perm x [] = Perm.refl (x ∷ [])
  insert_by-perm x (y ∷ ys) = elim (decided (leb x y)) [
    | inl less ↦ rw (insert_by, less) (Perm.refl (x ∷ y ∷ ys))
    | inr more ↦
        rw (insert_by, more) (Perm.trans (Perm.cons y (insert_by-perm x ys)) (Perm.swap x y ys))
  ]

  pub sort_by-perm : (xs : List A) → Perm (sort_by xs) xs
  unfolding sort_by
  sort_by-perm [] = Perm.refl []
  sort_by-perm (x ∷ xs) = Perm.trans (insert_by-perm x (sort_by xs)) (Perm.cons x (sort_by-perm xs))

  module _ (trans : (x y z : A) → leb x y ≡ true → leb y z ≡ true → leb x z ≡ true)
      (total : (x y : A) → leb x y ≡ false → leb y x ≡ true) where
    IsLeast-trans : (x y : A) (zs : List A) → leb x y ≡ true → IsLeast y zs → IsLeast x zs
    IsLeast-trans x y [] h l = tt
    IsLeast-trans x y (z ∷ zs) h l = (trans x y z h l.0, IsLeast-trans x y zs h l.1)

    IsLeast-insert_by :
        (x y : A) (zs : List A) → leb x y ≡ true → IsLeast x zs → IsLeast x (insert_by y zs)
    unfolding insert_by
    IsLeast-insert_by x y [] h l = (h, tt)
    IsLeast-insert_by x y (z ∷ zs) h l = elim (decided (leb y z)) [
      | inl less ↦ rw (insert_by, less) (h, l)
      | inr more ↦ rw (insert_by, more) (l.0, IsLeast-insert_by x y zs h l.1)
    ]

    insert_by-IsSortedBy : (x : A) (ys : List A) → IsSortedBy ys → IsSortedBy (insert_by x ys)
    unfolding insert_by
    insert_by-IsSortedBy x [] s = (tt, tt)
    insert_by-IsSortedBy x (y ∷ ys) s = elim (decided (leb x y)) [
      | inl less ↦ rw (insert_by, less) ((less, IsLeast-trans x y ys less s.0), s)
      | inr more ↦
          rw (insert_by, more)
            (IsLeast-insert_by y x ys (total x y more) s.0, insert_by-IsSortedBy x ys s.1)
    ]

    pub sort_by-IsSortedBy : (xs : List A) → IsSortedBy (sort_by xs)
    unfolding sort_by
    sort_by-IsSortedBy [] = tt
    sort_by-IsSortedBy (x ∷ xs) = insert_by-IsSortedBy x (sort_by xs) (sort_by-IsSortedBy xs)
