-- ===== src/State/TopTenants.antt =====
-- crates/firq-core/src/state.rs: `TopTenants`, a bounded table of the tenants served most, which
-- gives a newcomer the place and the count of the smallest entry.
pub mod Laws
pub mod Counts
use firq.Prelude.{
  ℕ, suc, ◌+◌, Bool, true, false, List, [], ◌∷◌, Option, none, some, ltb, leb, ◌==◌, if◌then◌else◌,
  length, set, sat_add, u64_max, ◌++◌,
}
use firq.Api.{TenantCount, TenantKey}

pub record TopTenants : Type 0 where
  pub capacity : ℕ
  pub entries : List TenantCount

unfoldable pub new : ℕ → TopTenants
new capacity = record { capacity = capacity; entries = [] }

-- `iter_mut().find(..)` and the write through it: `none` where the tenant has no entry.
unfoldable pub bump : TenantKey → ℕ → List TenantCount → Option (List TenantCount)
bump tenant delta [] = none
bump tenant delta (e ∷ es) =
    if e.tenant == tenant
    then some (record e { count = sat_add e.count delta } ∷ es)
    else elim (bump tenant delta es) [ none ↦ none | some es' ↦ some (e ∷ es') ]

-- The fold that finds the smallest count and the first index where it stands, from index `idx` on.
unfoldable pub find_min : List TenantCount → ℕ → ℕ × ℕ → ℕ × ℕ
find_min [] idx acc = acc
find_min (e ∷ es) idx acc =
    find_min es (idx + 1) (if ltb e.count acc.1 then (idx, e.count) else acc)

-- The entries after `tenant` has been counted.
unfoldable pub record_entries : ℕ → List TenantCount → TenantKey → ℕ → List TenantCount
unfolding bump find_min
record_entries capacity entries tenant delta = elim (bump tenant delta entries) [
  | some entries' ↦ entries'
  | none ↦
      if ltb (length entries) capacity
      then entries ++ record { tenant = tenant; count = delta } ∷ []
      else let (min_idx, min_count) = find_min entries 0 (0, u64_max) in
        set entries min_idx (record { tenant = tenant; count = sat_add min_count delta })
]

-- `TopTenants::record`
unfoldable pub observe : TopTenants → TenantKey → ℕ → TopTenants
observe t tenant delta =
    if t.capacity == 0
    then t
    else record t { entries = record_entries t.capacity t.entries tenant delta }

-- A stable sort by falling counts.
unfoldable pub sort_in : TenantCount → List TenantCount → List TenantCount
sort_in e [] = e ∷ []
sort_in e (f ∷ fs) = if leb f.count e.count then e ∷ f ∷ fs else f ∷ sort_in e fs

unfoldable pub sort_by_count : List TenantCount → List TenantCount
unfolding sort_in
sort_by_count [] = []
sort_by_count (e ∷ es) = sort_in e (sort_by_count es)

unfoldable pub snapshot : TopTenants → List TenantCount
snapshot t = sort_by_count t.entries
