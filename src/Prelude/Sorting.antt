-- ===== src/Prelude/Sorting.antt =====
-- `sorted` and `set` on numbers: the sorted tuple of a sequence, and of its distinct members.
use Prim.Native.Nat.{ℕ, suc, ◌≤◌, ◌<◌}
use mathlib.Core.Path.{◌≡◌, refl, ◌∙◌}
use mathlib.Core.Logic.{◌↔◌}
use mathlib.Core.Logic.{inl, inr}
use mathlib.Core.Bool.{false, ◌||◌}
use mathlib.Core.List.{List, [], ◌∷◌}
use native.Mathlib.Omega.{arith}
use nipo_science.Prelude.Tests.{leb, if◌then◌else◌, ◌==◌, Bool-cases, nat_eq}
use nipo_science.Prelude.Dicts.{mem}

insert_sorted : ℕ → List ℕ → List ℕ
insert_sorted x [] = x ∷ []
insert_sorted x (y ∷ ys) = if leb x y then x ∷ y ∷ ys else y ∷ insert_sorted x ys

-- `tuple(sorted(xs))`
unfoldable pub sorted : List ℕ → List ℕ
unfolding insert_sorted
sorted [] = []
sorted (x ∷ xs) = insert_sorted x (sorted xs)

-- The distinct members of a sequence, as `set(xs)` keeps them.
unfoldable pub distinct : List ℕ → List ℕ
distinct [] = []
distinct (x ∷ xs) = let rest = distinct xs in if mem x rest then rest else x ∷ rest

-- Each element is at most the next one, and at least `lo`.
abbrev pub IsSortedFrom : ℕ → List ℕ → Type 0
IsSortedFrom lo [] = Unit
IsSortedFrom lo (x ∷ xs) = (lo ≤ x) × IsSortedFrom x xs

-- Each element is less than the next one, and at least `lo`.
abbrev pub IsIncreasingFrom : ℕ → List ℕ → Type 0
IsIncreasingFrom lo [] = Unit
IsIncreasingFrom lo (x ∷ xs) = (lo ≤ x) × IsIncreasingFrom (suc x) xs

IsSortedFrom-le : (m n : ℕ) (xs : List ℕ) → m ≤ n → IsSortedFrom n xs → IsSortedFrom m xs
IsSortedFrom-le m n [] h s = tt
IsSortedFrom-le m n (x ∷ xs) h s = (omega arith, s.1)

insert_sorted-IsSortedFrom :
    (lo x : ℕ) (ys : List ℕ) → lo ≤ x → IsSortedFrom lo ys → IsSortedFrom lo (insert_sorted x ys)
unfolding insert_sorted
insert_sorted-IsSortedFrom lo x [] h s = (h, tt)
insert_sorted-IsSortedFrom lo x (y ∷ ys) h s = elim (Bool-cases (leb x y)) [
  | inl le ↦ rw le (h, (ground arith, s.1))
  | inr gt ↦ rw gt (s.0, insert_sorted-IsSortedFrom y x ys (ground arith) s.1)
]

pub sorted-IsSortedFrom : (xs : List ℕ) → IsSortedFrom 0 (sorted xs)
unfolding sorted
sorted-IsSortedFrom [] = tt
sorted-IsSortedFrom (x ∷ xs) =
    insert_sorted-IsSortedFrom 0 x (sorted xs) (omega arith) (sorted-IsSortedFrom xs)

insert_sorted_least : (x : ℕ) (ys : List ℕ) → IsSortedFrom x ys → insert_sorted x ys ≡ x ∷ ys
unfolding insert_sorted
insert_sorted_least x [] s = refl
insert_sorted_least x (y ∷ ys) s = ground arith

pub sorted_of_IsSortedFrom : (lo : ℕ) (xs : List ℕ) → IsSortedFrom lo xs → sorted xs ≡ xs
unfolding sorted
sorted_of_IsSortedFrom lo [] s = refl
sorted_of_IsSortedFrom lo (x ∷ xs) s =
    rw (sorted_of_IsSortedFrom x xs s.1) (insert_sorted_least x xs s.1)

pub IsIncreasingFrom-le :
    (m n : ℕ) (xs : List ℕ) → m ≤ n → IsIncreasingFrom n xs → IsIncreasingFrom m xs
IsIncreasingFrom-le m n [] h s = tt
IsIncreasingFrom-le m n (x ∷ xs) h s = (omega arith, s.1)

pub IsIncreasingFrom-IsSortedFrom :
    (lo : ℕ) (xs : List ℕ) → IsIncreasingFrom lo xs → IsSortedFrom lo xs
IsIncreasingFrom-IsSortedFrom lo [] s = tt
IsIncreasingFrom-IsSortedFrom lo (x ∷ xs) s =
    (s.0, IsSortedFrom-le x (suc x) xs (omega arith) (IsIncreasingFrom-IsSortedFrom (suc x) xs s.1))

-- Nothing below the bound is a member.
not_mem_below : (x lo : ℕ) (xs : List ℕ) → x < lo → IsIncreasingFrom lo xs → mem x xs ≡ false
unfolding mem
not_mem_below x lo [] h s = refl
not_mem_below x lo (y ∷ ys) h s = ground (arith, not_mem_below x (suc y) ys (omega arith) s.1)

pub distinct_of_IsIncreasingFrom :
    (lo : ℕ) (xs : List ℕ) → IsIncreasingFrom lo xs → distinct xs ≡ xs
unfolding distinct
distinct_of_IsIncreasingFrom lo [] s = refl
distinct_of_IsIncreasingFrom lo (x ∷ xs) s =
    rw (distinct_of_IsIncreasingFrom (suc x) xs s.1)
      (rw (not_mem_below x (suc x) xs (omega arith) s.1) refl)

mem-insert_sorted : (z x : ℕ) (ys : List ℕ) → mem z (insert_sorted x ys) ≡ (x == z || mem z ys)
unfolding insert_sorted mem
mem-insert_sorted z x [] = refl
mem-insert_sorted z x (y ∷ ys) = ground (arith, mem-insert_sorted z x ys)

-- Sorting keeps the members.
pub mem-sorted : (z : ℕ) (xs : List ℕ) → mem z (sorted xs) ≡ mem z xs
unfolding sorted mem
mem-sorted z [] = refl
mem-sorted z (x ∷ xs) = rw (mem-insert_sorted z x (sorted xs), mem-sorted z xs)

insert_sorted-IsIncreasingFrom :
    (lo x : ℕ) (ys : List ℕ)
    → lo ≤ x
    → IsIncreasingFrom lo ys
    → mem x ys ≡ false
    → IsIncreasingFrom lo (insert_sorted x ys)
unfolding insert_sorted mem
insert_sorted-IsIncreasingFrom lo x [] h s fresh = (h, tt)
insert_sorted-IsIncreasingFrom lo x (y ∷ ys) h s fresh = elim (Bool-cases (leb x y)) [
  | inl le ↦ rw le (h, (ground arith, s.1))
  | inr gt ↦
      rw gt (s.0, insert_sorted-IsIncreasingFrom (suc y) x ys (ground arith) s.1 (ground arith))
]

-- The sorted distinct members increase strictly.
pub sorted-distinct-IsIncreasingFrom : (xs : List ℕ) → IsIncreasingFrom 0 (sorted (distinct xs))
unfolding sorted distinct
sorted-distinct-IsIncreasingFrom [] = tt
sorted-distinct-IsIncreasingFrom (x ∷ xs) = elim (Bool-cases (mem x (distinct xs))) [
  | inl old ↦ rw old (sorted-distinct-IsIncreasingFrom xs)
  | inr new ↦ rw new (
      insert_sorted-IsIncreasingFrom 0 x (sorted (distinct xs)) (omega arith)
        (sorted-distinct-IsIncreasingFrom xs) (mem-sorted x (distinct xs) ∙ new))
]

-- A sequence that equals its sorted distinct members is one that increases strictly.
pub increasing_iff : (xs : List ℕ) → (sorted (distinct xs) ≡ xs) ↔ IsIncreasingFrom 0 xs
increasing_iff xs = (
  λ e. rw e at (sorted-distinct-IsIncreasingFrom xs),
  λ s.
      rw (distinct_of_IsIncreasingFrom 0 xs s)
        (sorted_of_IsSortedFrom 0 xs (IsIncreasingFrom-IsSortedFrom 0 xs s)),
)

-- A sequence that equals its sorted copy is one that is sorted.
pub sorted_iff : (xs : List ℕ) → (sorted xs ≡ xs) ↔ IsSortedFrom 0 xs
sorted_iff xs = (λ e. rw e at (sorted-IsSortedFrom xs), sorted_of_IsSortedFrom 0 xs)
