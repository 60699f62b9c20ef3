-- ===== src/Rbac/Rounds.antt =====
-- The recursive query of `check_permission` ends: `max_hierarchy_depth + 1` rounds are enough, on
-- every table of orgs, cycles included.
use specter_cloud.Prelude.{
  ℕ, zero, suc, ◌+◌, ◌≤◌, ◌≡◌, refl, ap, List, [], ◌∷◌, ◌++◌, All, nil, cons, All-map, All-append,
  All-select, All-map_fun, arith, ltb, Bool-cases, inl, inr,
}
use specter_cloud.Models.{Uuid, Org}
use specter_cloud.Rbac.{
  OrgChainRow, chain_row, chain_base, parents, chain_step, chain_from, org_chain,
  max_hierarchy_depth,
}

abbrev IsDeep : ℕ → OrgChainRow → Type 0
IsDeep n c = n ≤ c.depth

All-IsDeep : (working : List OrgChainRow) → All (IsDeep 0) working
All-IsDeep [] = nil
All-IsDeep (c ∷ working) = cons (omega arith) (All-IsDeep working)

module _ (orgs : List Org) where
  parents-IsDeep : (n : ℕ) (c : OrgChainRow) → n ≤ c.depth → All (IsDeep (suc n)) (parents orgs c)
  unfolding parents
  parents-IsDeep n c h = elim (Bool-cases (ltb c.depth max_hierarchy_depth)) [
    | inl below ↦ rw below (
        All-map (IsDeep (suc n)) (chain_row (c.depth + 1)) _
          (All-select (λ o. suc n ≤ c.depth + 1) _ orgs (λ o m t. omega arith)))
    | inr limit ↦ rw limit nil
  ]

  chain_step-IsDeep :
      (n : ℕ) {working : List OrgChainRow}
      → All (IsDeep n) working
      → All (IsDeep (suc n)) (chain_step orgs working)
  unfolding chain_step
  chain_step-IsDeep n nil = nil
  chain_step-IsDeep n (cons {x = c} p h) = All-append (parents-IsDeep n c p) (chain_step-IsDeep n h)

  -- Rows at the limit have no parents in the query.
  chain_step-limit :
      {working : List OrgChainRow}
      → All (IsDeep max_hierarchy_depth) working
      → chain_step orgs working ≡ []
  unfolding chain_step parents
  chain_step-limit nil = refl
  chain_step-limit (cons {x = c} p h) = ground (arith, chain_step-limit h)

  chain_from-nil : (rounds : ℕ) → chain_from rounds orgs [] ≡ []
  unfolding chain_from
  chain_from-nil zero = refl
  chain_from-nil (suc n) = chain_from-nil n

  chain_from-enough :
      (n rounds more : ℕ) {working : List OrgChainRow}
      → max_hierarchy_depth ≤ n + rounds
      → rounds ≤ more
      → All (IsDeep n) working
      → chain_from (suc more) orgs working ≡ chain_from (suc rounds) orgs working
  unfolding chain_from
  chain_from-enough n zero more {working} e h a =
      let last : chain_step orgs working ≡ [] =
        chain_step-limit (All-map_fun (λ c p. omega arith) a) in
      rw (last, chain_from-nil)
  chain_from-enough n (suc rounds) zero e h a = absurd (omega arith)
  chain_from-enough n (suc rounds) (suc more) {working} e h a =
      ap (λ r. working ++ r)
        (chain_from-enough (suc n) rounds more (omega arith) (omega arith) (chain_step-IsDeep n a))

  -- Further rounds of the recursive query add no row, on any table of orgs, cyclic or not.
  pub org_chain_ends :
      (target : Uuid) (more : ℕ)
      → max_hierarchy_depth ≤ more
      → chain_from (suc more) orgs (chain_base orgs target) ≡ org_chain orgs target
  unfolding org_chain
  org_chain_ends target more h =
      chain_from-enough 0 max_hierarchy_depth more (omega arith) h
        (All-IsDeep (chain_base orgs target))
