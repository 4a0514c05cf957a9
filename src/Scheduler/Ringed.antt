-- ===== src/Scheduler/Ringed.antt =====
-- The ring of active shards between two calls, and the calls that write a shard back.
use firq.Prelude.{
  ℕ, ◌<◌, ◌≡◌, refl, false, inl, inr, Bool-cases, length, length-set, All, All-snoc, get_or,
  sat_add, if◌then◌else◌,
}
use firq.Api.{Task}
use firq.State.Ring
use firq.State.Ring.Laws.{items-push_back}
use firq.State.Dict
use firq.State.Tenant.{TenantState, Shard, rings_empty, is_empty, at}
use firq.Scheduler.Core.{Scheduler, activate_shard, notify_all, put_shard}
use firq.State.Ledger.{next_handle, register_pending}
use firq.Scheduler.Insert.{write_back, commit, push_entry}

-- The shards that wait for a consumer are shards of the scheduler.
pub record IsRinged {T : Type 0} (s : Scheduler T) : Type 0 where
  pub ring : Ring.IsValid s.active_shards
  pub below : All (λ i. i < length s.shards) (Ring.items s.active_shards)

module _ {T : Type 0} where
  pub IsRinged-ext :
      (s s' : Scheduler T)
      → IsRinged s
      → s'.active_shards ≡ s.active_shards
      → length s'.shards ≡ length s.shards
      → IsRinged s'
  IsRinged-ext s s' w a n = record { ring = rw a w.ring; below = rw (a, n) w.below }

  pub write_back-IsRinged :
      (i tenant : ℕ) (shard : Shard T) (ts : TenantState T) (s : Scheduler T)
      → IsRinged s
      → IsRinged (write_back i shard tenant ts s)
  unfolding write_back put_shard
  write_back-IsRinged i tenant shard ts s w =
      IsRinged-ext s _ w refl
        (length-set s.shards i (record shard { tenants = Dict.insert tenant ts shard.tenants }))

  activate_shard-IsRinged :
      (s : Scheduler T) (i : ℕ) → IsRinged s → i < length s.shards → IsRinged (activate_shard s i)
  unfolding activate_shard
  activate_shard-IsRinged s i w lt = elim (Bool-cases (get_or s.shard_active i false)) [
    | inl e ↦ rw e w
    | inr e ↦
        let pushed = items-push_back s.active_shards i w.ring in
        rw e (record { ring = pushed.1; below = rw pushed.0 (All-snoc _ _ i w.below lt) })
  ]

  notify_all-IsRinged : (s : Scheduler T) → IsRinged s → IsRinged (notify_all s)
  unfolding notify_all
  notify_all-IsRinged s w = record { ring = w.ring; below = w.below }

  pub commit-IsRinged :
      (i tenant : ℕ) (shard : Shard T) (ts : TenantState T) (task : Task T) (s : Scheduler T)
      → IsRinged s
      → i < length s.shards
      → IsRinged (commit i shard tenant ts task s).0
  unfolding commit write_back put_shard
  commit-IsRinged i tenant shard ts task s w lt =
      let (handle, g) = next_handle s.ledger in
      let entry = push_entry (record { id = handle; task = task }) tenant shard ts in
      let shard' : Shard T = record entry.0 {
        tenants = Dict.insert tenant entry.1 entry.0.tenants;
      } in
      let pushed : Scheduler T = write_back i entry.0 tenant entry.1 (record s {
        ledger = register_pending handle g;
        stats = record s.stats { enqueued = sat_add s.stats.enqueued 1 };
      }) in
      let w' = IsRinged-ext s pushed w refl (length-set s.shards i shard') in
      let lt' : i < length pushed.shards = rw (length-set s.shards i shard') lt in
      let activated = if rings_empty shard then activate_shard pushed i else pushed in
      let w'' : IsRinged activated = elim (Bool-cases (rings_empty shard)) [
        | inl e ↦ rw e (activate_shard-IsRinged pushed i w' lt')
        | inr e ↦ rw e w'
      ] in
      elim (Bool-cases (is_empty (at ts.queues task.priority))) [
        | inl e ↦ rw e (notify_all-IsRinged activated w'')
        | inr e ↦ rw e w''
      ]
