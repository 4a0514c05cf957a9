-- ===== src/Semaphore.antt =====
-- tokio's semaphore, which crates/firq-async and crates/firq-tower only call: its operations and what
-- they promise, and the holders of its permits as a list.
use firq.Prelude.{
  ℕ, zero, suc, ◌+◌, ◌<◌, ◌≡◌, ◌∙◌, sym, ap, List, [], ◌∷◌, length, Option, none, some,
  Option-cases, inl, inr, some_eq,
}

-- `tokio::sync::Semaphore`: `acquire` gives nothing where the caller has to wait. A permit that is
-- dropped goes back.
pub record Semaphore : Type 1 where
  pub State : Type 0
  pub new : ℕ → State
  pub available : State → ℕ
  pub acquire : ℕ → State → Option State
  pub release : ℕ → State → State
  pub new-available : (n : ℕ) → available (new n) ≡ n
  pub acquire-available :
      (n : ℕ) (st st' : State) → acquire n st ≡ some st' → available st' + n ≡ available st
  pub acquire-waits : (n : ℕ) (st : State) → acquire n st ≡ none → available st < n
  pub release-available : (n : ℕ) (st : State) → available (release n st) ≡ available st + n

-- The list without the item at an index, if there is one.
unfoldable pub remove_at : {A : Type 0} → ℕ → List A → Option (List A)
remove_at n [] = none
remove_at zero (x ∷ xs) = some xs
remove_at (suc n) (x ∷ xs) = elim (remove_at n xs) [ none ↦ none | some ys ↦ some (x ∷ ys) ]

pub length-remove_at :
    {A : Type 0} (k : ℕ) (xs ys : List A) → remove_at k xs ≡ some ys → suc (length ys) ≡ length xs
unfolding remove_at
length-remove_at k [] ys e = cc
length-remove_at zero (x ∷ xs) ys e = ap (λ zs. suc (length zs)) (sym (some_eq xs ys e))
length-remove_at (suc k) (x ∷ xs) ys e = elim (Option-cases (remove_at k xs)) [
  | inl h ↦ cc
  | inr (zs, h) ↦
      let same : x ∷ zs ≡ ys = some_eq (x ∷ zs) ys (rw h at e) in
      ap (λ ws. suc (length ws)) (sym same) ∙ ap suc (length-remove_at k xs zs h)
]
