-- ===== src/Prelude/Texts.antt =====
-- The order of Python's texts, by code points, and `in` on texts.
use Prim.Native.Nat.{ℕ, compare, Ordering}
use Prim.Native.Char.{code}
use Prim.Native.String.{String}
use mathlib.Core.Path.{◌≡◌, refl, ap, sym, ◌∙◌}
use mathlib.Core.Logic.{◌≢◌}
use mathlib.Core.Bool.{Bool, true, false, ◌||◌}
use mathlib.Core.List.{List, [], ◌∷◌}
use native.Mathlib.Omega.{arith}

abbrev pub codes : String → List ℕ
codes String.[] = []
codes (String.◌∷◌ c s) = code c ∷ codes s

pub leb_codes : List ℕ → List ℕ → Bool
leb_codes [] ys = true
leb_codes (x ∷ xs) [] = false
leb_codes (x ∷ xs) (y ∷ ys) = elim (compare x y) [
  | Ordering.lt ↦ true
  | Ordering.eq ↦ leb_codes xs ys
  | Ordering.gt ↦ false
]

-- `s <= t`
unfoldable pub leb_text : String → String → Bool
unfolding leb_codes
leb_text s t = leb_codes (codes s) (codes t)

leb_codes_refl : (xs : List ℕ) → leb_codes xs xs ≡ true
unfolding leb_codes
leb_codes_refl [] = refl
leb_codes_refl (x ∷ xs) = ground (arith, leb_codes_refl xs)

leb_codes_trans :
    (xs ys zs : List ℕ) → leb_codes xs ys ≡ true → leb_codes ys zs ≡ true → leb_codes xs zs ≡ true
unfolding leb_codes
leb_codes_trans [] ys zs h k = refl
leb_codes_trans (x ∷ xs) [] zs h k = cc
leb_codes_trans (x ∷ xs) (y ∷ ys) [] h k = cc
leb_codes_trans (x ∷ xs) (y ∷ ys) (z ∷ zs) h k = ground (arith, leb_codes_trans xs ys zs)

leb_codes-total : (xs ys : List ℕ) → leb_codes xs ys ≡ false → leb_codes ys xs ≡ true
unfolding leb_codes
leb_codes-total [] ys h = cc
leb_codes-total (x ∷ xs) [] h = refl
leb_codes-total (x ∷ xs) (y ∷ ys) h = ground (arith, leb_codes-total xs ys)

pub leb_text_refl : (s : String) → leb_text s s ≡ true
unfolding leb_text
leb_text_refl s = leb_codes_refl (codes s)

pub leb_text_ne : (s t : String) → leb_text s t ≡ false → s ≢ t
leb_text_ne s t h p =
    let same : leb_text s t ≡ true = ap (leb_text s) (sym p) ∙ leb_text_refl s in cc

pub leb_text_trans :
    (s t u : String) → leb_text s t ≡ true → leb_text t u ≡ true → leb_text s u ≡ true
unfolding leb_text
leb_text_trans s t u h k = leb_codes_trans (codes s) (codes t) (codes u) h k

pub leb_text-total : (s t : String) → leb_text s t ≡ false → leb_text t s ≡ true
unfolding leb_text
leb_text-total s t h = leb_codes-total (codes s) (codes t) h

starts : List ℕ → List ℕ → Bool
starts [] ys = true
starts (x ∷ xs) [] = false
starts (x ∷ xs) (y ∷ ys) = elim (compare x y) [ Ordering.eq ↦ starts xs ys | _ ↦ false ]

occurs : List ℕ → List ℕ → Bool
unfolding starts
occurs xs [] = starts xs []
occurs xs (y ∷ ys) = starts xs (y ∷ ys) || occurs xs ys

-- `t.startswith(s)`
unfoldable pub starts_with : String → String → Bool
unfolding starts
starts_with s t = starts (codes s) (codes t)

-- `s in t`
unfoldable pub is_in : String → String → Bool
unfolding occurs
is_in s t = occurs (codes s) (codes t)
