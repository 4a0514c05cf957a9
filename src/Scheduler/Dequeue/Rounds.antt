-- ===== src/Scheduler/Dequeue/Rounds.antt =====
-- The rounds over the active shards: each one that finds no task lowers what is left to do.
use firq.Prelude.{
  ℕ, zero, suc, ◌+◌, ◌<◌, ◌≡◌, ◌⊎◌, ◌∙◌, refl, sym, ap, subst, true, List, [], ◌∷◌, arith, inl, inr,
  Bool-cases, Option-cases, none, length, length-append, set, get_or, All,
}
use native.Mathlib.Decide.{ℕ_discrete}
use firq.Api.{ordered, empty}
use firq.State.Ring
use firq.State.Ring.{ActiveRing}
use firq.State.Ring.Laws.{items-push_back, pop_front-Pops, Pops, len-length}
use firq.State.Tenant.{Shard, rings_empty, new_shard}
use firq.State.Marked.{IsServed}
use firq.Scheduler.Core.{Scheduler, shard_at, put_shard}
use firq.Scheduler.Valid.{IsValid}
use firq.Scheduler.Commit.{IsValid-ext}
use firq.Scheduler.Ringed.{IsRinged}
use firq.Scheduler.Active.{IsActive, shard_at-put_self, shard_at-put_ne}
use firq.Scheduler.Dequeue.{Turn, try_dequeue_from_shard, put_searched, give_up, search_shards}
use firq.Scheduler.Dequeue.Reach.{round-IsActive}
use firq.Scheduler.Dequeue.Valid.{searched-Same, put_searched-IsValid, put_searched-IsRinged}
use firq.Scheduler.Dequeue.Work.{shard_work, FundedShard}
use firq.Scheduler.Dequeue.Progress.{Searched, search_levels-Searched, levels_len}

module _ {T : Type 0} where
  unfoldable pub shards_work : List (Shard T) → ℕ
  shards_work [] = 0
  shards_work (shard ∷ shards) = shard_work shard + shards_work shards

  unfoldable pub scheduler_work : Scheduler T → ℕ
  scheduler_work s = length (Ring.items s.active_shards) + shards_work s.shards

  -- Every tenant is funded.
  abbrev pub Funded : ℕ → Scheduler T → Type 0
  Funded most s = (i : ℕ) → FundedShard most (shard_at s i)

  shards_work-set :
      (i : ℕ) (shards : List (Shard T)) (shard d : Shard T)
      → i < length shards
      → shards_work (set shards i shard) + shard_work (get_or shards i d)
        ≡ shards_work shards + shard_work shard
  unfolding shards_work
  shards_work-set i [] shard d h = absurd (omega arith)
  shards_work-set zero (x ∷ xs) shard d h = omega arith
  shards_work-set (suc i) (x ∷ xs) shard d h =
      omega (arith, shards_work-set i xs shard d (omega arith))

  idle-rings_empty : (shard : Shard T) → levels_len ordered shard ≡ 0 → rings_empty shard ≡ true
  unfolding rings_empty levels_len Ring.is_empty
  idle-rings_empty shard h = ground (
    arith,
    h,
    len-length shard.active_rings.first,
    len-length shard.active_rings.second,
    len-length shard.active_rings.third,
  )

  put_searched-Funded :
      (most i : ℕ) (turn : Turn T)
      → i < length turn.scheduler.shards
      → Funded most turn.scheduler
      → FundedShard most turn.shard
      → Funded most (put_searched i turn)
  unfolding put_searched shard_at put_shard
  put_searched-Funded most i turn lt f new = elim (Bool-cases (rings_empty turn.shard)) [
    | inl e ↦ rw e put
    | inr e ↦ rw e put
  ]
    where
      put : (k : ℕ) → FundedShard most (shard_at (put_shard turn.scheduler i turn.shard) k)
      put k = elim (ℕ_discrete i k) [
        | yes same ↦
            subst (λ j. FundedShard most (shard_at (put_shard turn.scheduler i turn.shard) j)) same
              (rw (shard_at-put_self turn.scheduler i turn.shard lt) new)
        | no n ↦ rw (shard_at-put_ne turn.scheduler i k turn.shard n) (f k)
      ]

  -- One round, for the shard that has left the ring of active shards.
  put_searched-work :
      (s : Scheduler T) (i : ℕ) (turn : Turn T) (ring : ActiveRing) (most : ℕ)
      → Ring.IsValid ring
      → i < length s.shards
      → turn.scheduler.shards ≡ s.shards
      → turn.scheduler.active_shards ≡ ring
      → Ring.items s.active_shards ≡ i ∷ Ring.items ring
      → Searched most (shard_at s i) turn.shard (levels_len ordered (shard_at s i) ≡ 0)
      → scheduler_work (put_searched i turn) < scheduler_work s
  unfolding scheduler_work put_searched put_shard shard_at
  put_searched-work s i turn ring most fine lt sh a e found =
      let moved = shards_work-set i s.shards turn.shard new_shard lt in
      let pushed = items-push_back ring i fine in
      elim (Bool-cases (rings_empty turn.shard)) [
        | inl none_left ↦
            rw (none_left, sh, a)
              (elim found.less [
                | inl (same, _) ↦ omega (arith, moved, ap length e, ap shard_work same)
                | inr lower ↦ omega (arith, moved, ap length e, lower)
              ])
        | inr some_left ↦
            rw (some_left, sh, a)
              (elim found.less [
                | inl (same, idle) ↦ absurd (
                    ground (
                      arith,
                      some_left,
                      ap rings_empty same,
                      idle-rings_empty (get_or s.shards i new_shard) idle,
                    ))
                | inr lower ↦ omega (
                  arith,
                  moved,
                  ap length e,
                  lower,
                  ap length pushed.0,
                  length-append (Ring.items ring) (i ∷ []),
                )
              ])
      ]

  searched :
      {most : ℕ} (s : Scheduler T) (i : ℕ)
      → IsServed (shard_at s i)
      → FundedShard most (shard_at s i)
      → (try_dequeue_from_shard s (shard_at s i)).result ≡ none
      → Searched most
          (shard_at s i)
          (try_dequeue_from_shard s (shard_at s i)).shard
          (levels_len ordered (shard_at s i) ≡ 0)
  unfolding try_dequeue_from_shard
  searched s i w f r = search_levels-Searched _ ordered s (shard_at s i) w f r

  -- What a call that answers `empty` makes of a scheduler: nothing, or less work.
  pub record Emptied (most : ℕ) (s s' : Scheduler T) (idle : Type 0) : Type 0 where
    pub funded : Funded most s'
    pub less : ((s' ≡ s) × idle) ⊎ (scheduler_work s' < scheduler_work s)

  pub search_shards-Emptied :
      (most n : ℕ) (s : Scheduler T)
      → IsValid s
      → IsRinged s
      → IsActive s
      → Funded most s
      → (search_shards n s).1 ≡ empty
      → Emptied most s (search_shards n s).0 ((n ≡ 0) ⊎ (Ring.items s.active_shards ≡ []))
  unfolding search_shards give_up shard_at
  search_shards-Emptied most zero s v r w f h = record { funded = f; less = inl (refl, inl refl) }
  search_shards-Emptied most (suc n) s v r w f h =
      go (search_shards-Emptied most n) (Ring.items s.active_shards) refl
        (pop_front-Pops s.active_shards r.ring) h
    where
      go :
          ((t : Scheduler T)
            → IsValid t
            → IsRinged t
            → IsActive t
            → Funded most t
            → (search_shards n t).1 ≡ empty
            → Emptied most t (search_shards n t).0 ((n ≡ 0) ⊎ (Ring.items t.active_shards ≡ [])))
          → (xs : List ℕ) → Ring.items s.active_shards ≡ xs
          → Pops xs (Ring.pop_front s.active_shards)
          → (search_shards (suc n) s).1 ≡ empty
          → Emptied most s
              (search_shards (suc n) s).0
              ((suc n ≡ 0) ⊎ (Ring.items s.active_shards ≡ []))
      go later [] e o h = rw (o, search_shards) (record { funded = f; less = inl (refl, inr e) })
      go later (i ∷ xs) e (ring, o, rest, fine) h =
          let s' : Scheduler T = record s { active_shards = ring } in
          let all : All (λ k. k < length s.shards) (i ∷ xs) = rw e at r.below in
          let v' = IsValid-ext s s' v refl refl refl in
          let r' : IsRinged s' = record { ring = fine; below = rw rest all.1 } in
          let turn = try_dequeue_from_shard s' (shard_at s' i) in
          let same = searched-Same s' i v' in
          let left = e ∙ ap (λ x. i ∷ x) (sym rest) in
          elim (Option-cases turn.result) [
            | inl fruitless ↦
                let found : Searched most (shard_at s i) turn.shard
                    (levels_len ordered (shard_at s i) ≡ 0) =
                  searched s' i (w.served i) (f i) fruitless in
                let t = put_searched i turn in
                let funded =
                  put_searched-Funded most i turn (rw same.shards all.0)
                    (unfold shard_at in (rw same.shards f)) found.funded in
                let lower =
                  put_searched-work s i turn ring most fine all.0 same.shards same.active_shards
                    left found in
                let after =
                  later t (put_searched-IsValid s' i v' all.0)
                    (put_searched-IsRinged s' i v' r' all.0)
                    (round-IsActive s ring i v' w all.0 left fine) funded
                    (rw (o, fruitless, search_shards) at h) in
                rw (o, search_shards, fruitless)
                  (record {
                    funded = after.funded;
                    less = inr (elim after.less [
                      | inl (stays, _) ↦ omega (arith, lower, ap scheduler_work stays)
                      | inr lower' ↦ omega (arith, lower, lower')
                    ]);
                  })
            | inr (_, found) ↦ let answer = rw (o, found, search_shards) at h in cc
          ]
