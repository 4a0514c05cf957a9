-- ===== src/State/Signal.antt =====
-- crates/firq-core/src/state.rs: `WorkSignal`, by the number that its waiters watch. The mutex and
-- the condition variable are the operating system's.
use firq.Prelude.{ℕ, ◌+◌, ◌%◌, Bool, not, ◌==◌, u64_mod}

pub record WorkSignal : Type 0 where
  pub seq : ℕ

unfoldable pub new : WorkSignal
new = record { seq = 0 }

abbrev pub current : WorkSignal → ℕ
current w = w.seq

-- `fetch_add` wraps.
unfoldable pub notify_all : WorkSignal → WorkSignal
notify_all w = record { seq = (w.seq + 1) % u64_mod }

-- What a waiter that has seen `last_seen` tests, before it sleeps and after it wakes.
unfoldable pub changed : WorkSignal → ℕ → Bool
changed w last_seen = not (w.seq == last_seen)
