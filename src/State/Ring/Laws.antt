-- ===== src/State/Ring/Laws.antt =====
-- A ring refines a FIFO: `items` of each operation's result.
use firq.Prelude.{
  ℕ, zero, suc, ◌+◌, ◌≤◌, ◌<◌, ◌≡◌, refl, true, List, [], ◌∷◌, ◌++◌, Option, none, some, arith,
  length, length-append, drop, length-drop, get_elem?, dec_lt,
}
use firq.State.Ring.{ActiveRing, new, len, is_empty, push_back, pop_front, items, IsValid, compact}

drop_all : (xs : List ℕ) → drop (length xs) xs ≡ []
drop_all [] = refl
drop_all (x ∷ xs) = drop_all xs

drop-append : (n : ℕ) (xs ys : List ℕ) → n ≤ length xs → drop n (xs ++ ys) ≡ drop n xs ++ ys
drop-append zero xs ys h = refl
drop-append (suc n) [] ys h = absurd (omega arith)
drop-append (suc n) (x ∷ xs) ys h = drop-append n xs ys (omega arith)

drop-get_elem? :
    (n : ℕ) (xs : List ℕ)
    → n < length xs
    → (x : ℕ) × (get_elem? xs n ≡ some x) × (drop n xs ≡ x ∷ drop (suc n) xs)
drop-get_elem? zero [] h = absurd (omega arith)
drop-get_elem? zero (x ∷ xs) h = (x, refl, refl)
drop-get_elem? (suc n) [] h = absurd (omega arith)
drop-get_elem? (suc n) (x ∷ xs) h = drop-get_elem? n xs (omega arith)

length-zero : (xs : List ℕ) → length xs ≡ 0 → xs ≡ []
length-zero [] h = refl
length-zero (x ∷ xs) h = absurd (omega arith)

pub items-new : items new ≡ []
unfolding items new
items-new = refl

pub new-IsValid : IsValid new
unfolding new
new-IsValid = omega arith

-- `len` counts the content, and `is_empty` tests it.
pub len-length : (r : ActiveRing) → len r ≡ length (items r)
unfolding len items
len-length r = omega (arith, length-drop r.head r.buf)

-- On a valid ring `push_back` adds the item behind all the others and leaves a valid ring.
pub items-push_back :
    (r : ActiveRing) (x : ℕ)
    → IsValid r
    → (items (push_back r x) ≡ items r ++ x ∷ []) × IsValid (push_back r x)
unfolding items push_back
items-push_back r x v =
    ground
      (arith, drop_all r.buf, drop-append r.head r.buf (x ∷ []), length-append {0} r.buf (x ∷ []))

compact-items : (r : ActiveRing) → IsValid r → (items (compact r) ≡ items r) × IsValid (compact r)
unfolding items compact
compact-items r v = ground (arith, drop_all r.buf)

-- `pop_front` gives the oldest entry and leaves the others, and fails on an empty ring only.
abbrev pub Pops : List ℕ → Option (ℕ × ActiveRing) → Type 0
Pops [] o = o ≡ none
Pops (x ∷ xs) o = (r : ActiveRing) × (o ≡ some (x, r)) × (items r ≡ xs) × IsValid r

-- On a valid ring `pop_front` gives the oldest item and leaves a valid ring of the others in
-- order, compacted or not, and gives nothing exactly where the ring has no item.
pub pop_front-Pops : (r : ActiveRing) → IsValid r → Pops (items r) (pop_front r)
unfolding items pop_front
pop_front-Pops r v = elim (dec_lt r.head (length r.buf)) [
  | yes p ↦
      let (x, e, d) = drop-get_elem? r.head r.buf p in
      let moved : ActiveRing = record r { head = r.head + 1 } in
      rw d (
        compact moved,
        ground (arith, e),
        ground (arith, compact-items moved),
        ground (arith, compact-items moved),
      )
  | no p ↦ let z : drop r.head r.buf ≡ [] = ground (arith, drop_all r.buf) in rw z (ground arith)
]

-- The two operations and the test in terms of the content alone.
pub is_empty-items : (r : ActiveRing) → is_empty r ≡ true → items r ≡ []
unfolding is_empty
is_empty-items r h = ground (arith, len-length r, length-zero (items r))
