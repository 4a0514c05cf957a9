-- ===== src/Scheduler/Active.antt =====
-- No queued task is out of reach: its tenant stands in the ring of its shard, and the shard in the
-- ring of active shards.
pub mod Insert
use firq.Prelude.{
  ℕ, ◌<◌, ◌≡◌, ◌≢◌, ◌∙◌, refl, sym, ap, subst, true, false, Bool, arith, inl, inr, Bool-cases,
  Option-cases, [], ◌∷◌, ◌++◌, length, length-set, set, get_or, get_or-set_self, get_or-set_ne,
  count, count-append, if◌then◌else◌, ◌&&◌, not, ◌||◌, sat_add, ltb,
}
use native.Mathlib.Decide.{ℕ_discrete}
use firq.Api.{Priority, Task, TenantKey}
use firq.State.Dict
use firq.State.Ring
use firq.State.Ring.{ActiveRing}
use firq.State.Ring.Laws.{items-push_back}
use firq.State.Ledger.{next_handle, register_pending}
use firq.State.Tenant.{
  PerPriority, TenantState, QueueEntry, Shard, at, put, is_empty, rings_empty, new_shard,
  new_tenant, fill,
}
use firq.State.Marked.{
  IsMarked, MarkedState, Marked-put, Marked-keep, insert-IsServed, push_back-count, push_back_self,
  idle-IsMarked, IsServed, put-IsServed,
}
use firq.Scheduler.Core.{Scheduler, shard_at, put_shard, activate_shard, notify_all}
use firq.Scheduler.Purge.{
  full, purge_tenant_for_enqueue, maybe_purge_tenant_before_enqueue, count_attempt, purge_reason,
}
use firq.Scheduler.Purge.Marked.{run_purge-Marked, purge_tenant_for_enqueue-Marked}
use firq.Scheduler.Insert.{
  tenant_entry, write_back, reserve_slot, reserve, push_entry, commit, admit,
}
use firq.Scheduler.Ringed.{IsRinged}

-- A shard whose rings are not empty is flagged, and the flagged shards stand in the ring of active
-- shards, once each.
pub record IsAwake {T : Type 0} (s : Scheduler T) : Type 0 where
  pub flags : length s.shard_active ≡ length s.shards
  pub once :
      (i : ℕ)
      → i < length s.shards
      → count i (Ring.items s.active_shards) ≡ (if get_or s.shard_active i false then 1 else 0)
  pub flagged : (i : ℕ) → rings_empty (shard_at s i) ≡ false → get_or s.shard_active i false ≡ true

pub record IsActive {T : Type 0} (s : Scheduler T) : Type 0 where
  pub served : (i : ℕ) → IsServed (shard_at s i)
  pub awake : IsAwake s

module _ {T : Type 0} where
  pub IsActive-ext :
      (s s' : Scheduler T)
      → IsActive s
      → s'.shards ≡ s.shards
      → s'.active_shards ≡ s.active_shards
      → s'.shard_active ≡ s.shard_active
      → IsActive s'
  unfolding shard_at
  IsActive-ext s s' w sh a f = record {
    served = λ i. rw sh (w.served i);
    awake = record {
      flags = rw (sh, f) w.awake.flags;
      once = λ i lt. rw (a, f) (w.awake.once i (rw sh at lt));
      flagged = λ i h. rw f (w.awake.flagged i (rw sh at h));
    };
  }

  pub notify_all-IsActive : (s : Scheduler T) → IsActive s → IsActive (notify_all s)
  unfolding notify_all
  notify_all-IsActive s w = IsActive-ext s _ w refl refl refl

module _ {T : Type 0} where
  pub shard_at-put_self :
      (s : Scheduler T) (i : ℕ) (shard : Shard T)
      → i < length s.shards
      → shard_at (put_shard s i shard) i ≡ shard
  unfolding shard_at put_shard
  shard_at-put_self s i shard lt = get_or-set_self s.shards i shard new_shard lt

  pub shard_at-put_ne :
      (s : Scheduler T) (i k : ℕ) (shard : Shard T)
      → i ≢ k
      → shard_at (put_shard s i shard) k ≡ shard_at s k
  unfolding shard_at put_shard
  shard_at-put_ne s i k shard n = get_or-set_ne s.shards i k shard new_shard n

  pub put_shard-IsServed :
      (s : Scheduler T) (i : ℕ) (shard : Shard T)
      → i < length s.shards
      → ((k : ℕ) → IsServed (shard_at s k))
      → IsServed shard
      → (k : ℕ) → IsServed (shard_at (put_shard s i shard) k)
  put_shard-IsServed s i shard lt old new k = elim (ℕ_discrete i k) [
    | yes e ↦
        subst (λ j. IsServed (shard_at (put_shard s i shard) j)) e
          (rw (shard_at-put_self s i shard lt) new)
    | no n ↦ rw (shard_at-put_ne s i k shard n) (old k)
  ]

  pub put_shard-IsAwake :
      (s : Scheduler T) (i : ℕ) (shard : Shard T)
      → IsAwake s
      → i < length s.shards
      → (rings_empty shard ≡ false → get_or s.shard_active i false ≡ true)
      → IsAwake (put_shard s i shard)
  unfolding put_shard
  put_shard-IsAwake s i shard w lt new =
      let n = length-set s.shards i shard in
      record {
        flags = w.flags ∙ sym n;
        once = λ k lk. w.once k (rw n at lk);
        flagged = λ k h. elim (ℕ_discrete i k) [
          | yes e ↦
              subst (λ j. get_or s.shard_active j false ≡ true) e
                (new (
                  ap rings_empty (sym (shard_at-put_self s i shard lt))
                  ∙ (subst (λ j. rings_empty (shard_at (put_shard s i shard) j) ≡ false) (sym e)
                      h)))
          | no d ↦ w.flagged k (ap rings_empty (sym (shard_at-put_ne s i k shard d)) ∙ h)
        ];
      }

  -- A shard is flagged, whether it was or not.
  pub activate_shard-IsActive :
      (s : Scheduler T) (i : ℕ)
      → IsRinged s
      → i < length s.shards
      → ((k : ℕ) → IsServed (shard_at s k))
      → length s.shard_active ≡ length s.shards
      → ((k : ℕ)
          → k < length s.shards
          → count k (Ring.items s.active_shards) ≡ (if get_or s.shard_active k false then 1 else 0))
      → ((k : ℕ)
          → i ≢ k
          → rings_empty (shard_at s k) ≡ false
          → get_or s.shard_active k false ≡ true)
      → IsActive (activate_shard s i)
  unfolding activate_shard shard_at
  activate_shard-IsActive s i r lt served flags once others =
      elim (Bool-cases (get_or s.shard_active i false)) [
        | inl e ↦ rw e (record {
          served = served;
          awake = record {
            flags = flags;
            once = once;
            flagged = λ k h. elim (ℕ_discrete i k) [
              | yes same ↦ subst (λ j. get_or s.shard_active j false ≡ true) same e
              | no n ↦ others k n h
            ];
          };
        })
        | inr e ↦
            let lt' : i < length s.shard_active = omega (arith, flags) in
            rw e (record {
              served = served;
              awake = record {
                flags = length-set s.shard_active i true ∙ flags;
                once = λ k lk.
                    ap (count k) (items-push_back s.active_shards i r.ring).0
                    ∙ (count-append k (Ring.items s.active_shards) (i ∷ [])
                        ∙ (elim (ℕ_discrete i k) [
                          | yes same ↦ rw (← same) (
                              ground (
                                arith,
                                once i lt,
                                e,
                                get_or-set_self s.shard_active i true false lt',
                              ))
                          | no n ↦
                              ground
                                (arith, once k lk, get_or-set_ne s.shard_active i k true false n, n)
                        ]));
                flagged = λ k h. elim (ℕ_discrete i k) [
                  | yes same ↦
                      subst (λ j. get_or (set s.shard_active i true) j false ≡ true) same
                        (get_or-set_self s.shard_active i true false lt')
                  | no n ↦ get_or-set_ne s.shard_active i k true false n ∙ others k n h
                ];
              };
            })
      ]
