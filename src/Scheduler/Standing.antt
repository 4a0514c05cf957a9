-- ===== src/Scheduler/Standing.antt =====
-- Where a queued task stands, by the invariant of the rings.
use firq.Prelude.{
  ℕ, zero, suc, ◌≤◌, ◌<◌, ◌≡◌, ◌∙◌, refl, Bool, true, false, List, [], ◌∷◌, length, count, get_or,
  some, arith,
}
use firq.Api.{Priority, high, normal, low, TenantKey}
use firq.State.Dict
use firq.State.Ring
use firq.State.Ring.{ActiveRing}
use firq.State.Ring.Laws.{len-length}
use firq.State.Tenant.{TenantState, Shard, at, is_empty, rings_empty}
use firq.Scheduler.Core.{Scheduler, shard_at}
use firq.Scheduler.Active.{IsActive}

-- A flag that is set belongs to a shard.
get_or-true : (flags : List Bool) (i : ℕ) → get_or flags i false ≡ true → i < length flags
get_or-true [] i h = cc
get_or-true (b ∷ flags) zero h = omega arith
get_or-true (b ∷ flags) (suc i) h = omega (arith, get_or-true flags i h)

-- A ring that holds a tenant is not empty.
count-is_empty :
    (tenant : ℕ) (ring : ActiveRing)
    → 0 < count tenant (Ring.items ring)
    → Ring.is_empty ring ≡ false
unfolding Ring.is_empty
count-is_empty tenant ring h =
    ground (arith, len-length ring, count_length tenant (Ring.items ring))
  where
    count_length : (t : ℕ) (xs : List ℕ) → count t xs ≤ length xs
    count_length t [] = omega arith
    count_length t (x ∷ xs) = ground (arith, count_length t xs)

module _ {T : Type 0} where
  at-rings_empty :
      (shard : Shard T) (p : Priority)
      → Ring.is_empty (at shard.active_rings p) ≡ false
      → rings_empty shard ≡ false
  unfolding rings_empty
  at-rings_empty shard high h = ground (arith, h)
  at-rings_empty shard normal h = ground (arith, h)
  at-rings_empty shard low h = ground (arith, h)

  -- The tenant of a queued task stands in its ring, and the shard in the ring of active shards.
  pub IsActive-queued :
      (s : Scheduler T)
      → IsActive s
      → (i : ℕ) (tenant : TenantKey) (ts : TenantState T) (p : Priority)
      → Dict.lookup tenant (shard_at s i).tenants ≡ some ts
      → is_empty (at ts.queues p) ≡ false
      → (0 < count tenant (Ring.items (at (shard_at s i).active_rings p)))
        × (count i (Ring.items s.active_shards) ≡ 1)
  IsActive-queued s w i tenant ts p found busy =
      let ring = at (shard_at s i).active_rings p in
      let m = (w.served i).served tenant ts found p in
      let standing = m.ringed (m.queued busy) in
      let flag =
        w.awake.flagged i (at-rings_empty (shard_at s i) p (count-is_empty tenant ring standing)) in
      let lt = get_or-true s.shard_active i flag in
      (standing, w.awake.once i (rw w.awake.flags at lt) ∙ rw flag refl)
