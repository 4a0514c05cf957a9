-- ===== src/Scheduler/Dequeue/Reach.antt =====
-- The search over the active shards leaves no queued task out of reach: a shard that leaves the
-- ring of active shards comes back to the end of it unless its own rings are empty.
use firq.Prelude.{
  ℕ, zero, suc, ◌<◌, ◌≡◌, ◌≢◌, ◌∙◌, refl, sym, ap, subst, true, false, Bool, arith, inl, inr,
  Bool-cases, Option-cases, List, [], ◌∷◌, length, length-set, set, get_or, get_or-set_self,
  get_or-set_ne, count, count-append, if◌then◌else◌, ◌==◌, All,
}
use native.Mathlib.Decide.{ℕ_discrete}
use firq.Api.{ordered}
use firq.State.Ring
use firq.State.Ring.{ActiveRing}
use firq.State.Ring.Laws.{items-push_back, pop_front-Pops, Pops}
use firq.State.Tenant.{rings_empty}
use firq.State.Marked.{IsServed}
use firq.Scheduler.Core.{Scheduler, shutdown_immediate, shard_at, put_shard}
use firq.Scheduler.Valid.{IsValid}
use firq.Scheduler.Commit.{IsValid-ext}
use firq.Scheduler.Ringed.{IsRinged}
use firq.Scheduler.Active.{IsActive, shard_at-put_self, shard_at-put_ne, put_shard-IsServed}
use firq.Scheduler.Purge.Tenant.{Same}
use firq.Scheduler.Dequeue.{
  Turn, try_dequeue_from_shard, put_searched, give_up, search_shards, try_dequeue,
}
use firq.Scheduler.Dequeue.Active.{search_levels-IsServed}
use firq.Scheduler.Dequeue.Valid.{searched-Same, put_searched-IsValid, put_searched-IsRinged}

-- The shard `i` has left the front of the ring of active shards.
record IsOut {T : Type 0} (s : Scheduler T) (i : ℕ) : Type 0 where
  pub here : i < length s.shards
  pub ring : Ring.IsValid s.active_shards
  pub served : (k : ℕ) → IsServed (shard_at s k)
  pub flags : length s.shard_active ≡ length s.shards
  pub once :
      (k : ℕ)
      → k < length s.shards
      → count k (i ∷ Ring.items s.active_shards) ≡ (if get_or s.shard_active k false then 1 else 0)
  pub flagged : (k : ℕ) → rings_empty (shard_at s k) ≡ false → get_or s.shard_active k false ≡ true

module _ {T : Type 0} where
  pop-IsOut :
      (s : Scheduler T) (ring : ActiveRing) (i : ℕ)
      → IsActive s
      → i < length s.shards
      → Ring.items s.active_shards ≡ i ∷ Ring.items ring
      → Ring.IsValid ring
      → IsOut (record s { active_shards = ring }) i
  unfolding shard_at
  pop-IsOut s ring i w lt e fine = record {
    here = lt;
    ring = fine;
    served = w.served;
    flags = w.awake.flags;
    once = λ k lk. ap (count k) (sym e) ∙ w.awake.once k lk;
    flagged = w.awake.flagged;
  }

  Same-IsOut : (s s' : Scheduler T) (i : ℕ) → Same s s' → IsOut s i → IsOut s' i
  unfolding shard_at
  Same-IsOut s s' i same w = record {
    here = rw same.shards w.here;
    ring = rw same.active_shards w.ring;
    served = λ k. rw same.shards (w.served k);
    flags = rw (same.shards, same.shard_active) w.flags;
    once = λ k lk. rw (same.active_shards, same.shard_active) (w.once k (rw same.shards at lk));
    flagged = λ k h. rw same.shard_active (w.flagged k (rw same.shards at h));
  }

  put_searched-IsActive :
      (i : ℕ) (turn : Turn T)
      → IsOut turn.scheduler i
      → IsServed turn.shard
      → IsActive (put_searched i turn)
  unfolding put_searched put_shard shard_at
  put_searched-IsActive i turn w new =
      let s = turn.scheduler in
      let n : length (set s.shards i turn.shard) ≡ length s.shards =
        length-set s.shards i turn.shard in
      let served = put_shard-IsServed s i turn.shard w.here w.served new in
      let self = shard_at-put_self s i turn.shard w.here in
      let lt : i < length s.shard_active = omega (arith, w.flags, w.here) in
      elim (Bool-cases (rings_empty turn.shard)) [
        | inl e ↦ rw e (record {
          served = served;
          awake = record {
            flags = length-set s.shard_active i false ∙ (w.flags ∙ sym n);
            once = λ k lk. elim (ℕ_discrete i k) [
              | yes same ↦
                  rw (← same) (
                    ground
                      (arith, w.once i w.here, get_or-set_self s.shard_active i false false lt))
              | no d ↦
                  ground (
                    arith,
                    w.once k (rw n at lk),
                    get_or-set_ne s.shard_active i k false false d,
                    d,
                  )
            ];
            flagged = λ k h. elim (ℕ_discrete i k) [
              | yes same ↦ absurd (
                  clash _ e (
                    ap rings_empty (sym self)
                    ∙ subst (λ j. rings_empty (shard_at (put_shard s i turn.shard) j) ≡ false)
                        (sym same) h))
              | no d ↦
                  get_or-set_ne s.shard_active i k false false d
                  ∙ w.flagged k (ap rings_empty (sym (shard_at-put_ne s i k turn.shard d)) ∙ h)
            ];
          };
        })
        | inr e ↦ rw e (record {
          served = served;
          awake = record {
            flags = w.flags ∙ sym n;
            once = λ k lk.
                ap (count k) (items-push_back s.active_shards i w.ring).0
                ∙ omega (
                  arith,
                  count-append k (Ring.items s.active_shards) (i ∷ []),
                  count-append k (i ∷ []) (Ring.items s.active_shards),
                  w.once k (rw n at lk),
                );
            flagged = λ k h. elim (ℕ_discrete i k) [
              | yes same ↦
                  subst (λ j. get_or s.shard_active j false ≡ true) same
                    (ground (arith, w.once i w.here))
              | no d ↦ w.flagged k (ap rings_empty (sym (shard_at-put_ne s i k turn.shard d)) ∙ h)
            ];
          };
        })
      ]
    where
      clash : (b : Bool) → b ≡ true → b ≢ false
      clash b t f = cc

  -- One round over the active shards.
  pub round-IsActive :
      (s : Scheduler T) (ring : ActiveRing) (i : ℕ)
      → IsValid (record s { active_shards = ring })
      → IsActive s
      → i < length s.shards
      → Ring.items s.active_shards ≡ i ∷ Ring.items ring
      → Ring.IsValid ring
      → let s' = record s { active_shards = ring } in
        IsActive (put_searched i (try_dequeue_from_shard s' (shard_at s' i)))
  round-IsActive s ring i v w lt e fine =
      let s' : Scheduler T = record s { active_shards = ring } in
      let turn = try_dequeue_from_shard s' (shard_at s' i) in
      let out = pop-IsOut s ring i w lt e fine in
      let served : IsServed turn.shard =
        unfold try_dequeue_from_shard in
        search_levels-IsServed ordered s' (shard_at s' i) (out.served i) in
      put_searched-IsActive i turn (Same-IsOut s' turn.scheduler i (searched-Same s' i v) out)
        served

  -- The rounds over the active shards.
  search_shards-IsActive :
      (n : ℕ) (s : Scheduler T)
      → IsValid s
      → IsRinged s
      → IsActive s
      → IsActive (search_shards n s).0
  unfolding search_shards give_up
  search_shards-IsActive zero s v r w = w
  search_shards-IsActive (suc n) s v r w =
      go (search_shards-IsActive n) (Ring.items s.active_shards) refl
        (pop_front-Pops s.active_shards r.ring)
    where
      go :
          ((t : Scheduler T) → IsValid t → IsRinged t → IsActive t → IsActive (search_shards n t).0)
          → (xs : List ℕ) → Ring.items s.active_shards ≡ xs
          → Pops xs (Ring.pop_front s.active_shards)
          → IsActive (search_shards (suc n) s).0
      go later [] e o = rw (o, search_shards) w
      go later (i ∷ xs) e (ring, o, rest, fine) =
          let s' : Scheduler T = record s { active_shards = ring } in
          let all : All (λ k. k < length s.shards) (i ∷ xs) = rw e at r.below in
          let v' = IsValid-ext s s' v refl refl refl in
          let r' : IsRinged s' = record { ring = fine; below = rw rest all.1 } in
          let turn = try_dequeue_from_shard s' (shard_at s' i) in
          let w' = round-IsActive s ring i v' w all.0 (e ∙ ap (λ x. i ∷ x) (sym rest)) fine in
          rw (o, search_shards)
            (elim (Option-cases turn.result) [
              | inl e2 ↦ rw e2 (
                  later (put_searched i turn) (put_searched-IsValid s' i v' all.0)
                    (put_searched-IsRinged s' i v' r' all.0) w')
              | inr (_, e2) ↦ rw e2 w'
            ])

  pub try_dequeue-IsActive :
      (s : Scheduler T) → IsValid s → IsRinged s → IsActive s → IsActive (try_dequeue s).0
  unfolding try_dequeue
  try_dequeue-IsActive s v r w = elim (Bool-cases (s.shutdown_state == shutdown_immediate)) [
    | inl e ↦ rw e w
    | inr e ↦ rw e (search_shards-IsActive (Ring.len s.active_shards) s v r w)
  ]
