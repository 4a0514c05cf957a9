-- ===== src/State/TopTenants/Laws.antt =====
-- The table of the tenants served most stays within its capacity, and is listed by falling counts.
use firq.Prelude.{
  ℕ, ◌+◌, ◌≤◌, ◌≡◌, refl, arith, List, [], ◌∷◌, some, Option-cases, inl, inr, Bool-cases, length,
  length-append, length-set, ltb, leb, ◌==◌, u64_max, if◌then◌else◌, ◌&&◌,
}
use firq.Api.{TenantCount, TenantKey}
use firq.State.TopTenants.{
  TopTenants, bump, find_min, record_entries, observe, sort_in, sort_by_count, snapshot,
}

length-bump :
    (tenant delta : ℕ) (es es' : List TenantCount)
    → bump tenant delta es ≡ some es'
    → length es' ≡ length es
unfolding bump
length-bump tenant delta [] es' h = ground arith
length-bump tenant delta (e ∷ es) es' h = elim (Bool-cases (e.tenant == tenant)) [
  | inl c ↦ ground (arith, h, c)
  | inr c ↦ elim (Option-cases (bump tenant delta es)) [
    | inl n ↦ ground (arith, h, c, n)
    | inr (fs, n) ↦ ground (arith, h, c, n, length-bump tenant delta es fs n)
  ]
]

length-record_entries :
    (capacity : ℕ) (es : List TenantCount) (tenant delta : ℕ)
    → length es ≤ capacity
    → length (record_entries capacity es tenant delta) ≤ capacity
unfolding record_entries
length-record_entries capacity es tenant delta h = elim (Option-cases (bump tenant delta es)) [
  | inr (fs, e) ↦ rw (e, record_entries) (omega (arith, h, length-bump tenant delta es fs e))
  | inl e ↦ elim (Bool-cases (ltb (length es) capacity)) [
    | inl c ↦
        rw
          (
            e,
            record_entries,
            c,
            length-append {0} es (record { tenant = tenant; count = delta } ∷ []),
          )
          (ground (arith, c))
    | inr c ↦ rw (e, record_entries, c) (rw (length-set es (find_min es 0 (0, u64_max)).0 _) h)
  ]
]

-- Counting a tenant keeps a table that is within its capacity within it.
pub length-observe :
    (t : TopTenants) (tenant : TenantKey) (delta : ℕ)
    → length t.entries ≤ t.capacity
    → length (observe t tenant delta).entries ≤ (observe t tenant delta).capacity
unfolding observe
length-observe t tenant delta h = elim (Bool-cases (t.capacity == 0)) [
  | inl e ↦ rw e h
  | inr e ↦ rw e (length-record_entries t.capacity t.entries tenant delta h)
]

-- The counts fall along a list.
pub data IsFalling : List TenantCount → Type 0 where
  nil : IsFalling []
  one : (e : TenantCount) → IsFalling (e ∷ [])
  more :
      {e f : TenantCount} {es : List TenantCount}
      → f.count ≤ e.count
      → IsFalling (f ∷ es)
      → IsFalling (e ∷ f ∷ es)

-- How often an entry with this tenant and this count stands in a list.
abbrev pub times : ℕ → ℕ → List TenantCount → ℕ
times k n [] = 0
times k n (e ∷ es) = (if (e.tenant == k) && (e.count == n) then 1 else 0) + times k n es

times-sort_in :
    (k n : ℕ) (e : TenantCount) (es : List TenantCount)
    → times k n (sort_in e es) ≡ times k n (e ∷ es)
unfolding sort_in
times-sort_in k n e [] = refl
times-sort_in k n e (f ∷ fs) = elim (Bool-cases (leb f.count e.count)) [
  | inl c ↦ rw c
  | inr c ↦ rw c (omega (arith, times-sort_in k n e fs))
]

under-IsFalling :
    (e f : TenantCount) (fs : List TenantCount)
    → IsFalling (f ∷ fs)
    → e.count ≤ f.count
    → IsFalling (sort_in e fs)
    → IsFalling (f ∷ sort_in e fs)
unfolding sort_in
under-IsFalling e f [] w h v = more h v
under-IsFalling e f (g ∷ gs) (more k w) h v = elim (Bool-cases (leb g.count e.count)) [
  | inl c ↦ rw c (more h (rw c at v))
  | inr c ↦ rw c (more k (rw c at v))
]

tail-IsFalling : (f : TenantCount) (fs : List TenantCount) → IsFalling (f ∷ fs) → IsFalling fs
tail-IsFalling f [] w = nil
tail-IsFalling f (g ∷ gs) (more k w) = w

sort_in-IsFalling :
    (e : TenantCount) (es : List TenantCount) → IsFalling es → IsFalling (sort_in e es)
unfolding sort_in
sort_in-IsFalling e [] w = one e
sort_in-IsFalling e (f ∷ fs) w = elim (Bool-cases (leb f.count e.count)) [
  | inl c ↦ rw c (more (ground arith) w)
  | inr c ↦
      rw c
        (under-IsFalling e f fs w (ground arith) (sort_in-IsFalling e fs (tail-IsFalling f fs w)))
]

times-sort_by_count :
    (k n : ℕ) (es : List TenantCount) → times k n (sort_by_count es) ≡ times k n es
unfolding sort_by_count
times-sort_by_count k n [] = refl
times-sort_by_count k n (e ∷ es) =
    omega (arith, times-sort_in k n e (sort_by_count es), times-sort_by_count k n es)

sort_by_count-IsFalling : (es : List TenantCount) → IsFalling (sort_by_count es)
unfolding sort_by_count
sort_by_count-IsFalling [] = nil
sort_by_count-IsFalling (e ∷ es) =
    sort_in-IsFalling e (sort_by_count es) (sort_by_count-IsFalling es)

-- A snapshot lists the entries by falling counts, and each pair of tenant and count as often as
-- the table holds it.
pub snapshot-IsFalling :
    (t : TopTenants)
    → IsFalling (snapshot t) × ((k n : ℕ) → times k n (snapshot t) ≡ times k n t.entries)
unfolding snapshot
snapshot-IsFalling t = (sort_by_count-IsFalling t.entries, λ k n. times-sort_by_count k n t.entries)
