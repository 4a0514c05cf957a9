-- ===== src/Prelude/Counting.antt =====
-- Sets of numbers as lists without repetition (`HashSet<u64>`), and how often a number occurs.
use Prim.Native.Nat.{ℕ, ◌+◌, ◌<◌}
use mathlib.Core.Path.{◌≡◌, refl}
use mathlib.Core.Bool.{Bool, true, false, ◌||◌}
use mathlib.Core.List.{List, [], ◌∷◌, ◌++◌}
use native.Mathlib.Omega.{arith}
use firq.Prelude.Tests.{◌==◌, if◌then◌else◌}
use firq.Prelude.Lists.{length}

-- 1 where the numbers agree, else 0.
abbrev pub hit : ℕ → ℕ → ℕ
hit a b = if a == b then 1 else 0

abbrev pub count : ℕ → List ℕ → ℕ
count a [] = 0
count a (x ∷ xs) = hit a x + count a xs

unfoldable pub contains : ℕ → List ℕ → Bool
contains a [] = false
contains a (x ∷ xs) = (a == x) || contains a xs

-- `HashSet::insert`: an element that is there already is not added again.
unfoldable pub insert : ℕ → List ℕ → List ℕ
insert a xs = if contains a xs then xs else a ∷ xs

-- `HashSet::remove`.
unfoldable pub remove : ℕ → List ℕ → List ℕ
remove a [] = []
remove a (x ∷ xs) = if a == x then xs else x ∷ remove a xs

pub count-append :
    (id : ℕ) (front back : List ℕ) → count id (front ++ back) ≡ count id front + count id back
count-append id [] back = omega (arith)
count-append id (i ∷ front) back = omega (count-append id front back, arith)

pub contains-count : (a : ℕ) (xs : List ℕ) → contains a xs ≡ true → 0 < count a xs
unfolding contains
contains-count a [] h = ground arith
contains-count a (x ∷ xs) h = ground (arith, contains-count a xs)

pub count-contains : (a : ℕ) (xs : List ℕ) → 0 < count a xs → contains a xs ≡ true
unfolding contains
count-contains a [] h = ground arith
count-contains a (x ∷ xs) h = ground (arith, count-contains a xs)

pub not-contains-count : (a : ℕ) (xs : List ℕ) → contains a xs ≡ false → count a xs ≡ 0
unfolding contains
not-contains-count a [] h = refl
not-contains-count a (x ∷ xs) h = ground (arith, not-contains-count a xs)

pub length-remove :
    (a : ℕ) (xs : List ℕ) → contains a xs ≡ true → length (remove a xs) + 1 ≡ length xs
unfolding contains remove
length-remove a [] h = ground arith
length-remove a (x ∷ xs) h = ground (arith, length-remove a xs)

pub count-remove :
    (b a : ℕ) (xs : List ℕ) → contains a xs ≡ true → count b (remove a xs) + hit b a ≡ count b xs
unfolding contains remove
count-remove b a [] h = ground arith
count-remove b a (x ∷ xs) h = ground (arith, count-remove b a xs)

pub remove_absent : (a : ℕ) (xs : List ℕ) → contains a xs ≡ false → remove a xs ≡ xs
unfolding contains remove
remove_absent a [] h = refl
remove_absent a (x ∷ xs) h = ground (arith, remove_absent a xs)
