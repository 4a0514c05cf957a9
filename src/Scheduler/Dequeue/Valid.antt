-- ===== src/Scheduler/Dequeue/Valid.antt =====
-- `try_dequeue` keeps the invariant.
use firq.Prelude.{
  ℕ, zero, suc, ◌-◌, ◌<◌, ◌≡◌, ◌∙◌, refl, ap, List, [], ◌∷◌, arith, inl, inr, Bool-cases,
  Option-cases, none, some, length, set, get_or-set_self, get_or-set_ne, length-set, ◌==◌, All,
  All-snoc,
}
use native.Mathlib.Decide.{ℕ_discrete}
use firq.Api.{Priority, ordered, Task, DequeueResult, dequeued}
use firq.State.Ring
use firq.State.Ring.{ActiveRing}
use firq.State.Ring.Laws.{items-push_back, pop_front-Pops, Pops}
use firq.State.Accounts.{Accounts-ext, Accounts-latest}
use firq.State.Queued.{occ_shard, occ_shards, occ_shards-set, occ_shards-get_or}
use firq.State.Tenant.{Shard, at, put, new_shard, rings_empty}
use firq.Scheduler.Core.{Scheduler, shutdown_immediate, shard_at, put_shard}
use firq.Scheduler.Valid.{IsValid, queued}
use firq.Scheduler.Commit.{IsValid-ext}
use firq.Scheduler.Ringed.{IsRinged}
use firq.Scheduler.Dequeue.{
  Turn, visit, search_ring, search_levels, try_dequeue_from_shard, put_searched, give_up,
  search_shards, try_dequeue,
}
use firq.Scheduler.Purge.Tenant.{Same}
use firq.Scheduler.Dequeue.Visit.{ShardHolds, TurnHolds, visit-Holds}

module _ {T : Type 0} (rest : ℕ → ℕ) (s0 : Scheduler T) where
  search_ring-Holds :
      (n : ℕ) (p : Priority) (s : Scheduler T) (shard : Shard T)
      → ShardHolds rest s0 s shard
      → TurnHolds rest s0 (search_ring n p s shard)
  unfolding search_ring
  search_ring-Holds zero p s shard h = h
  search_ring-Holds (suc n) p s shard h =
      elim (Option-cases (Ring.pop_front (at shard.active_rings p))) [
        | inl e ↦ rw (e, search_ring) h
        | inr ((tenant, ring), e) ↦
            let shard' : Shard T = record shard { active_rings = put shard.active_rings p ring } in
            let turn = visit p tenant s shard' in
            let h' = visit-Holds rest s0 p tenant s shard shard' h refl in
            rw (e, search_ring)
              (elim (Option-cases turn.result) [
                | inl r ↦ rw r (search_ring-Holds n p turn.scheduler turn.shard h')
                | inr (_, r) ↦ rw r h'
              ])
      ]

  search_levels-Holds :
      (ps : List Priority) (s : Scheduler T) (shard : Shard T)
      → ShardHolds rest s0 s shard
      → TurnHolds rest s0 (search_levels ps s shard)
  unfolding search_levels
  search_levels-Holds [] s shard h = h
  search_levels-Holds (p ∷ ps) s shard h =
      let n = Ring.len (at shard.active_rings p) in
      let turn = search_ring n p s shard in
      let h' = search_ring-Holds n p s shard h in
      elim (Option-cases turn.result) [
        | inl r ↦ rw (r, search_levels) (search_levels-Holds ps turn.scheduler turn.shard h')
        | inr (_, r) ↦ rw (r, search_levels) h'
      ]

module _ {T : Type 0} where
  -- What is queued in the other shards.
  abbrev elsewhere_shard : Scheduler T → ℕ → ℕ → ℕ
  elsewhere_shard s i j = occ_shards j s.shards - occ_shard j (shard_at s i)

  take_shard-Holds :
      (s : Scheduler T) (i : ℕ) → IsValid s → ShardHolds (elsewhere_shard s i) s s (shard_at s i)
  unfolding queued shard_at
  take_shard-Holds s i v = record {
    same = record {
      config = refl;
      shards = refl;
      active_shards = refl;
      shard_active = refl;
      shutdown_state = refl;
    };
    accounts =
        Accounts-ext s.ledger _ _ 0 v.accounts (λ j. omega (arith, occ_shards-get_or j i s.shards));
    limited = λ t u h. v.limited i t u h;
  }

  -- A shard's write-back.
  put_shard-IsValid :
      (s s' : Scheduler T) (i : ℕ) (shard : Shard T)
      → IsValid s
      → i < length s.shards
      → ShardHolds (elsewhere_shard s i) s s' shard
      → IsValid (put_shard s' i shard)
  unfolding queued shard_at put_shard
  put_shard-IsValid s s' i shard v lt h = record {
    accounts = rw h.same.config (
        Accounts-ext s'.ledger _ _ 0 (Accounts-latest s'.ledger _ 0 h.accounts) (λ j. omega (
          arith,
          ap (λ (x : List (Shard T)). occ_shards j (set x i shard)) h.same.shards,
          occ_shards-set j i s.shards shard new_shard lt,
          occ_shards-get_or j i s.shards,
        )));
    sharded = rw (length-set s'.shards i shard, h.same.shards) v.sharded;
    limited = λ k t u found. rw h.same.config (elim (ℕ_discrete i k) [
      | yes p ↦ h.limited t u (
          rw (get_or-set_self s'.shards i shard new_shard (rw h.same.shards lt)) at
            (rw (← p) at found))
      | no p ↦
          v.limited k t u
            (rw h.same.shards at (rw (get_or-set_ne s'.shards i k shard new_shard p) at found))
    ]);
  }

  put_searched_parts :
      (i : ℕ) (turn : Turn T)
      → let s' = put_searched i turn in
        let t = put_shard turn.scheduler i turn.shard in
        (s'.config ≡ t.config) × (s'.shards ≡ t.shards) × (s'.ledger ≡ t.ledger)
  unfolding put_searched put_shard
  put_searched_parts i turn = ground arith

module _ {T : Type 0} where
  pub put_searched-IsValid :
      (s : Scheduler T) (i : ℕ)
      → IsValid s
      → i < length s.shards
      → IsValid (put_searched i (try_dequeue_from_shard s (shard_at s i)))
  unfolding try_dequeue_from_shard
  put_searched-IsValid s i v lt =
      let turn = try_dequeue_from_shard s (shard_at s i) in
      let parts = put_searched_parts i turn in
      IsValid-ext (put_shard turn.scheduler i turn.shard) _
        (put_shard-IsValid s turn.scheduler i turn.shard v lt (
          search_levels-Holds (elsewhere_shard s i) s ordered s (shard_at s i)
            (take_shard-Holds s i v)))
        parts.0 parts.1 parts.2

  pub put_searched-IsRinged :
      (s : Scheduler T) (i : ℕ)
      → IsValid s
      → IsRinged s
      → i < length s.shards
      → IsRinged (put_searched i (try_dequeue_from_shard s (shard_at s i)))
  unfolding try_dequeue_from_shard put_searched put_shard
  put_searched-IsRinged s i v w lt =
      let turn = try_dequeue_from_shard s (shard_at s i) in
      let same =
        (search_levels-Holds (elsewhere_shard s i) s ordered s (shard_at s i)
          (take_shard-Holds s i v)).same in
      let n : length (set turn.scheduler.shards i turn.shard) ≡ length s.shards =
        length-set turn.scheduler.shards i turn.shard ∙ ap (length {A = Shard T}) same.shards in
      elim (Bool-cases (rings_empty turn.shard)) [
        | inl e ↦ rw e (record {
          ring = rw same.active_shards w.ring;
          below = rw (n, same.active_shards) w.below;
        })
        | inr e ↦
            let pushed = items-push_back s.active_shards i w.ring in
            rw e (record {
              ring = rw same.active_shards pushed.1;
              below = rw (n, same.active_shards, pushed.0) (All-snoc _ _ i w.below lt);
            })
      ]

  -- A search of a shard changes neither the shards around it nor the shutdown state.
  pub searched-Same :
      (s : Scheduler T) (i : ℕ)
      → IsValid s
      → Same s (try_dequeue_from_shard s (shard_at s i)).scheduler
  unfolding try_dequeue_from_shard
  searched-Same s i v =
      (search_levels-Holds (elsewhere_shard s i) s ordered s (shard_at s i)
        (take_shard-Holds s i v)).same

-- Induction over the rounds of `search_shards`: `P` holds between two rounds, and `Q` of the answer.
module _ {T : Type 0} (P : Scheduler T → Type 0) (Q : Scheduler T × DequeueResult T → Type 0)
    (popped : (s : Scheduler T) (ring : ActiveRing) → P s → P (record s { active_shards = ring }))
    (gave_up : (s : Scheduler T) → IsValid s → IsRinged s → P s → Q (give_up s))
    (missed : (s : Scheduler T) (i : ℕ)
      → IsValid s
      → P s
      → (try_dequeue_from_shard s (shard_at s i)).result ≡ none
      → P (put_searched i (try_dequeue_from_shard s (shard_at s i))))
    (found : (s : Scheduler T) (i tenant : ℕ) (task : Task T)
      → IsValid s
      → P s
      → (try_dequeue_from_shard s (shard_at s i)).result ≡ some (tenant, task)
      → IsValid (put_searched i (try_dequeue_from_shard s (shard_at s i)))
      → IsRinged (put_searched i (try_dequeue_from_shard s (shard_at s i)))
      → Q (put_searched i (try_dequeue_from_shard s (shard_at s i)), dequeued tenant task)) where
  pub search_shards-induct :
      (n : ℕ) (s : Scheduler T) → IsValid s → IsRinged s → P s → Q (search_shards n s)
  unfolding search_shards
  search_shards-induct zero s v w p = gave_up s v w p
  search_shards-induct (suc n) s v w p =
      go (search_shards-induct n) (Ring.items s.active_shards) refl
        (pop_front-Pops s.active_shards w.ring)
    where
      go :
          ((t : Scheduler T) → IsValid t → IsRinged t → P t → Q (search_shards n t))
          → (xs : List ℕ) → Ring.items s.active_shards ≡ xs
          → Pops xs (Ring.pop_front s.active_shards)
          → Q (search_shards (suc n) s)
      go later [] e o = rw (o, search_shards) (gave_up s v w p)
      go later (i ∷ xs) e (ring, o, rest, fine) =
          let s' : Scheduler T = record s { active_shards = ring } in
          let all : All (λ k. k < length s.shards) (i ∷ xs) = rw e at w.below in
          let v' = IsValid-ext s s' v refl refl refl in
          let w' : IsRinged s' = record { ring = fine; below = rw rest all.1 } in
          let turn = try_dequeue_from_shard s' (shard_at s' i) in
          let v2 = put_searched-IsValid s' i v' all.0 in
          let w2 = put_searched-IsRinged s' i v' w' all.0 in
          let p' = popped s ring p in
          rw (o, search_shards)
            (elim (Option-cases turn.result) [
              | inl r ↦ rw r (later (put_searched i turn) v2 w2 (missed s' i v' p' r))
              | inr ((tenant, task), r) ↦ rw r (found s' i tenant task v' p' r v2 w2)
            ])

module _ {T : Type 0} where
  -- `try_dequeue` keeps both invariants, that of a valid scheduler and that of its ring of
  -- active shards, whatever it answers.
  pub try_dequeue-IsValid :
      (s : Scheduler T)
      → IsValid s
      → IsRinged s
      → IsValid (try_dequeue s).0 × IsRinged (try_dequeue s).0
  unfolding try_dequeue give_up
  try_dequeue-IsValid s v w = elim (Bool-cases (s.shutdown_state == shutdown_immediate)) [
    | inl e ↦ rw e (v, w)
    | inr e ↦ rw e (
        search_shards-induct (λ t. Unit) (λ r. IsValid r.0 × IsRinged r.0) (λ t ring p. p)
          (λ t v' w' p. (v', w')) (λ t i v' p r. p) (λ t i tenant task v' p r v2 w2. (v2, w2))
          (Ring.len s.active_shards) s v w tt)
  ]
