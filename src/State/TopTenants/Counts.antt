-- ===== src/State/TopTenants/Counts.antt =====
-- What an observation does to the counts of the table of the tenants served most.
use firq.Prelude.{
  ℕ, ◌≡◌, ◌≢◌, refl, arith, false, List, [], ◌∷◌, Option, none, some, Bool-cases, inl, inr, ◌==◌,
  sat_add, if◌then◌else◌, some_eq,
}
use firq.Api.{TenantCount, TenantKey}
use firq.State.TopTenants.{TopTenants, bump, record_entries, observe}

-- The count that a table holds for a tenant.
unfoldable pub count_of : TenantKey → List TenantCount → Option ℕ
count_of tenant [] = none
count_of tenant (e ∷ es) = if e.tenant == tenant then some e.count else count_of tenant es

-- What `bump` makes of the entries in which a tenant is counted `n` times.
record Bumps (tenant delta n : ℕ) (es es' : List TenantCount) : Type 0 where
  pub found : bump tenant delta es ≡ some es'
  pub raised : count_of tenant es' ≡ some (sat_add n delta)
  pub kept : (k : TenantKey) → k ≢ tenant → count_of k es' ≡ count_of k es

bump-Bumps :
    (tenant : TenantKey) (delta n : ℕ) (es : List TenantCount)
    → count_of tenant es ≡ some n
    → (es' : List TenantCount) × Bumps tenant delta n es es'
unfolding count_of bump
bump-Bumps tenant delta n [] h = cc
bump-Bumps tenant delta n (e ∷ es) h = elim (Bool-cases (e.tenant == tenant)) [
  | inl f ↦
      let same : e.count ≡ n = some_eq e.count n (rw f at h) in
      (
        record e { count = sat_add e.count delta } ∷ es,
        record {
          found = rw f refl;
          raised = rw (f, same) refl;
          kept = λ k d. let other : (e.tenant == k) ≡ false = ground (arith, f, d) in rw other refl;
        },
      )
  | inr f ↦
      let (es', b) = bump-Bumps tenant delta n es (rw f at h) in
      (
        e ∷ es',
        record {
          found = rw (f, b.found, bump) refl;
          raised = rw f b.raised;
          kept = λ k d. elim (Bool-cases (e.tenant == k)) [
            | inl g ↦ rw g refl
            | inr g ↦ rw g (b.kept k d)
          ];
        },
      )
]

-- In a table with room for an entry at least, counting a tenant that it lists raises that
-- tenant's count by the number observed, capped at the largest `u64`, and changes no other
-- tenant's count.
pub observe-count_of :
    (t : TopTenants) (tenant : TenantKey) (delta n : ℕ)
    → t.capacity ≢ 0
    → count_of tenant t.entries ≡ some n
    → let t' = observe t tenant delta in
      (count_of tenant t'.entries ≡ some (sat_add n delta))
      × ((k : TenantKey) → k ≢ tenant → count_of k t'.entries ≡ count_of k t.entries)
unfolding observe record_entries
observe-count_of t tenant delta n some_room h =
    let (es', b) = bump-Bumps tenant delta n t.entries h in
    let room : (t.capacity == 0) ≡ false = ground (arith, some_room) in
    rw (room, b.found, record_entries) (b.raised, b.kept)
