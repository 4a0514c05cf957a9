-- ===== src/Scheduler/Dequeue/Progress.antt =====
-- A call of `try_dequeue` that answers `empty` lowers what is left to do.
use firq.Prelude.{
  ℕ, zero, suc, ◌+◌, ◌<◌, ◌≡◌, ◌⊎◌, ◌∙◌, refl, sym, ap, List, [], ◌∷◌, arith, inl, inr,
  Option-cases, none, length,
}
use firq.Api.{Priority}
use firq.State.Ring
use firq.State.Ring.{ActiveRing}
use firq.State.Ring.Laws.{pop_front-Pops, Pops, len-length}
use firq.State.Tenant.{Shard, at, put}
use firq.State.Marked.{IsServed}
use firq.Scheduler.Core.{Scheduler}
use firq.Scheduler.Dequeue.{visit, search_ring, search_levels}
use firq.Scheduler.Dequeue.Active.{visit-IsServed, search_ring-IsServed}
use firq.Scheduler.Dequeue.Work.{shard_work, FundedShard}
use firq.Scheduler.Dequeue.Turns.{visit-Lowers}

module _ {T : Type 0} where
  -- What a fruitless search makes of a shard: nothing, or less work.
  pub record Searched (most : ℕ) (shard shard' : Shard T) (idle : Type 0) : Type 0 where
    pub funded : FundedShard most shard'
    pub less : ((shard' ≡ shard) × idle) ⊎ (shard_work shard' < shard_work shard)

  search_ring-Searched :
      (most n : ℕ) (p : Priority) (s : Scheduler T) (shard : Shard T)
      → IsServed shard
      → FundedShard most shard
      → (search_ring n p s shard).result ≡ none
      → Searched most shard
          (search_ring n p s shard).shard
          ((n ≡ 0) ⊎ (length (Ring.items (at shard.active_rings p)) ≡ 0))
  unfolding search_ring
  search_ring-Searched most zero p s shard w f r = record {
    funded = f;
    less = inl (refl, inl refl);
  }
  search_ring-Searched most (suc n) p s shard w f r =
      go (search_ring-Searched most n p) (Ring.items (at shard.active_rings p)) refl
        (pop_front-Pops (at shard.active_rings p) (w.valid p)) r
    where
      go :
          ((s : Scheduler T) (shard : Shard T)
            → IsServed shard
            → FundedShard most shard
            → (search_ring n p s shard).result ≡ none
            → Searched most shard
                (search_ring n p s shard).shard
                ((n ≡ 0) ⊎ (length (Ring.items (at shard.active_rings p)) ≡ 0)))
          → (xs : List ℕ) → Ring.items (at shard.active_rings p) ≡ xs
          → Pops xs (Ring.pop_front (at shard.active_rings p))
          → (search_ring (suc n) p s shard).result ≡ none
          → Searched most shard
              (search_ring (suc n) p s shard).shard
              ((suc n ≡ 0) ⊎ (length (Ring.items (at shard.active_rings p)) ≡ 0))
      go later [] e o r =
          rw (o, search_ring) (record { funded = f; less = inl (refl, inr (ap length e)) })
      go later (tenant ∷ xs) e (ring, o, rest, fine) r =
          let turn =
            visit p tenant s (record shard { active_rings = put shard.active_rings p ring }) in
          let left = e ∙ ap (λ x. tenant ∷ x) (sym rest) in
          let w' = visit-IsServed shard w p tenant ring fine left s in
          elim (Option-cases turn.result) [
            | inl none_found ↦
                let (f', less) = visit-Lowers most shard f p tenant ring fine left s none_found in
                let after =
                  later turn.scheduler turn.shard w' f' (rw (o, none_found, search_ring) at r) in
                rw (o, search_ring, none_found)
                  (record {
                    funded = after.funded;
                    less = elim after.less [
                      | inl (same, _) ↦ inr (omega (arith, less, ap shard_work same))
                      | inr lower ↦ inr (omega (arith, less, lower))
                    ];
                  })
            | inr (_, found) ↦ let fruitless = rw (o, found, search_ring) at r in cc
          ]

  unfoldable pub levels_len : List Priority → Shard T → ℕ
  levels_len [] shard = 0
  levels_len (p ∷ ps) shard = length (Ring.items (at shard.active_rings p)) + levels_len ps shard

  pub search_levels-Searched :
      (most : ℕ) (ps : List Priority) (s : Scheduler T) (shard : Shard T)
      → IsServed shard
      → FundedShard most shard
      → (search_levels ps s shard).result ≡ none
      → Searched most shard (search_levels ps s shard).shard (levels_len ps shard ≡ 0)
  unfolding search_levels levels_len
  search_levels-Searched most [] s shard w f r = record { funded = f; less = inl (refl, refl) }
  search_levels-Searched most (p ∷ ps) s shard w f r =
      let n = Ring.len (at shard.active_rings p) in
      let turn = search_ring n p s shard in
      elim (Option-cases turn.result) [
        | inl fruitless ↦
            let first = search_ring-Searched most n p s shard w f fruitless in
            let later =
              search_levels-Searched most ps turn.scheduler turn.shard
                (search_ring-IsServed n p s shard w) first.funded
                (rw (fruitless, search_levels) at r) in
            rw (fruitless, search_levels)
              (record {
                funded = later.funded;
                less = elim first.less [
                  | inr lower ↦ elim later.less [
                    | inl (same, _) ↦ inr (omega (arith, lower, ap shard_work same))
                    | inr lower' ↦ inr (omega (arith, lower, lower'))
                  ]
                  | inl (same, idle) ↦ elim later.less [
                    | inl (same', idle') ↦ inl (
                      same' ∙ same,
                      omega (
                        arith,
                        idle,
                        idle',
                        ap (levels_len ps) same,
                        len-length (at shard.active_rings p),
                      ),
                    )
                    | inr lower' ↦ inr (omega (arith, ap shard_work same, lower'))
                  ]
                ];
              })
        | inr (_, found) ↦ let fruitless = rw (found, search_levels) at r in cc
      ]
