-- ===== src/Channel.antt =====
-- tokio's bounded channel, which crates/firq-async only calls: its operations and what they promise.
use firq.Prelude.{ℕ, ◌≤◌, ◌<◌, ◌≡◌, Bool, true, List, [], ◌∷◌, ◌++◌, length, Option, none, some}

-- `tokio::sync::mpsc`: `send` gives nothing where the sender has to wait for room, and `recv` gives
-- nothing where the receiver has to wait for an item. A closed channel keeps what it holds.
pub record Channel (A : Type 0) : Type 1 where
  pub State : Type 0
  pub new : ℕ → State
  pub queued : State → List A
  pub capacity : State → ℕ
  pub is_closed : State → Bool
  pub send : A → State → Option State
  pub recv : State → Option (A × State)
  pub close : State → State
  pub new-queued : (n : ℕ) → queued (new n) ≡ []
  pub new-capacity : (n : ℕ) → capacity (new n) ≡ n
  pub send-queued :
      (x : A) (st st' : State) → send x st ≡ some st' → queued st' ≡ queued st ++ x ∷ []
  pub send-room : (x : A) (st st' : State) → send x st ≡ some st' → length (queued st) < capacity st
  pub send-capacity : (x : A) (st st' : State) → send x st ≡ some st' → capacity st' ≡ capacity st
  pub send-waits : (x : A) (st : State) → send x st ≡ none → capacity st ≤ length (queued st)
  pub recv-queued : (x : A) (st st' : State) → recv st ≡ some (x, st') → queued st ≡ x ∷ queued st'
  pub recv-capacity :
      (x : A) (st st' : State) → recv st ≡ some (x, st') → capacity st' ≡ capacity st
  pub recv-is_closed :
      (x : A) (st st' : State) → recv st ≡ some (x, st') → is_closed st' ≡ is_closed st
  pub close-queued : (st : State) → queued (close st) ≡ queued st
  pub close-capacity : (st : State) → capacity (close st) ≡ capacity st
  pub close-is_closed : (st : State) → is_closed (close st) ≡ true
