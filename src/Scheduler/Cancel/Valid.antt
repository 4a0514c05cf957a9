-- ===== src/Scheduler/Cancel/Valid.antt =====
-- `cancel` keeps the invariant.
use firq.Prelude.{◌≡◌, refl, arith, inl, inr, Bool-cases, contains}
use firq.Api.{TaskHandle}
use firq.State.Ledger.{take_pending, release_reserved_slots, mark_cancelled}
use firq.State.Accounts.{Accounts-latest, cancel-Accounts}
use firq.Scheduler.Core.{Scheduler, notify_all, shard_at}
use firq.Scheduler.Cancel.{cancel}
use firq.Scheduler.Valid.{IsValid, queued}
use firq.Scheduler.Ringed.{IsRinged, IsRinged-ext}

module _ {T : Type 0} where
  pub cancel-IsValid : (id : TaskHandle) (s : Scheduler T) → IsValid s → IsValid (cancel id s).0
  unfolding cancel notify_all take_pending queued shard_at
  cancel-IsValid id s v = elim (Bool-cases (contains id s.ledger.pending_ids)) [
    | inl e ↦
        let g = release_reserved_slots 1 (mark_cancelled id (take_pending id s.ledger).1) in
        rw e (record {
          accounts = Accounts-latest g _ 0 (cancel-Accounts s.ledger (queued s) id v.accounts e);
          sharded = v.sharded;
          limited = v.limited;
        })
    | inr e ↦ rw e v
  ]

  pub cancel-IsRinged : (id : TaskHandle) (s : Scheduler T) → IsRinged s → IsRinged (cancel id s).0
  unfolding cancel notify_all
  cancel-IsRinged id s w =
      let same : ((cancel id s).0.active_shards ≡ s.active_shards)
          × ((cancel id s).0.shards ≡ s.shards) =
        ground arith in
      IsRinged-ext s _ w same.0 (rw same.1 refl)
