-- ===== src/State/Ring.antt =====
-- crates/firq-core/src/state.rs, `ActiveRing`: a FIFO in a vector with a moving head. The queue's
-- content is what lies from the head on; `pop_front` compacts the vector at times.
pub mod Laws
use firq.Prelude.{
  ℕ, ◌+◌, ◌-◌, ◌*◌, ◌≤◌, Bool, List, [], ◌∷◌, ◌++◌, Option, none, some, ltb, leb, ◌==◌, ◌&&◌,
  if◌then◌else◌, length, drop, get_elem?,
}

pub record ActiveRing : Type 0 where
  pub buf : List ℕ
  pub head : ℕ

unfoldable pub new : ActiveRing
new = record { buf = []; head = 0 }

unfoldable pub len : ActiveRing → ℕ
len r = length r.buf - r.head

unfoldable pub is_empty : ActiveRing → Bool
unfolding len
is_empty r = len r == 0

unfoldable pub push_back : ActiveRing → ℕ → ActiveRing
push_back r item =
    if r.head == length r.buf
    then record { buf = item ∷ []; head = 0 }
    else record r { buf = r.buf ++ item ∷ [] }

-- The vector once the head has moved on: compacted, emptied or as it was.
compact : ActiveRing → ActiveRing
compact r =
    if ltb 64 r.head && leb (length r.buf) (r.head * 2)
    then record { buf = drop r.head r.buf; head = 0 }
    else if r.head == length r.buf
    then record { buf = []; head = 0 }
    else r

unfoldable pub pop_front : ActiveRing → Option (ℕ × ActiveRing)
unfolding compact
pop_front r = if leb (length r.buf) r.head then none else elim (get_elem? r.buf r.head) [
  | none ↦ none
  | some item ↦ some (item, compact (record r { head = r.head + 1 }))
]

-- The queue that a ring stands for, oldest first.
unfoldable pub items : ActiveRing → List ℕ
items r = drop r.head r.buf

abbrev pub IsValid : ActiveRing → Type 0
IsValid r = r.head ≤ length r.buf
