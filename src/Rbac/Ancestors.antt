-- ===== src/Rbac/Ancestors.antt =====
-- The recursive query of `check_permission` finds the ancestors of the target org, each at its
-- distance, up to the depth limit.
use specter_cloud.Prelude.{
  ℕ, zero, suc, ◌+◌, ◌≤◌, ◌<◌, ◌≡◌, refl, ap, sym, ◌∙◌, true, Option, none, some, List, [], ◌∷◌,
  has, All, nil, cons, Any, here, there, All-map, Any-map, All-append, Any-append_left,
  Any-append_right, All-select, Any-select, Any-map_fun, ==_refl, lt→ltb, arith, ltb, ◌==◌, ==_iff,
  Bool-cases, inl, inr,
}
use native.Mathlib.Numerals.{add-one}
use specter_cloud.Models.{Uuid, Org}
use specter_cloud.Rbac.{
  OrgChainRow, chain_row, chain_base, parents, chain_step, chain_from, org_chain,
  max_hierarchy_depth,
}

-- `o` is reached from the org `target` by `depth` steps to the parent, through rows of `orgs`.
pub data Ancestor (orgs : List Org) (target : Uuid) : Org → ℕ → Type 0 where
  itself : {o : Org} → Any (λ x. x ≡ o) orgs → o.id ≡ target → Ancestor orgs target o 0
  parent :
      {c o : Org} {depth : ℕ}
      → Ancestor orgs target c depth
      → Any (λ x. x ≡ o) orgs
      → c.parent_org_id ≡ some o.id
      → Ancestor orgs target o (suc depth)

-- a row of the query that stands for an ancestor
abbrev pub Shows : List Org → Uuid → OrgChainRow → Type 0
Shows orgs target c =
    (o : Org) × Ancestor orgs target o c.depth
    × (c ≡ chain_row c.depth o)
    × (c.depth ≤ max_hierarchy_depth)

module _ (orgs : List Org) (target : Uuid) where
  chain_base-Shows : All (Shows orgs target) (chain_base orgs target)
  unfolding chain_base
  chain_base-Shows =
      All-map (Shows orgs target) (chain_row 0) _
        (All-select _ _ orgs (λ o m e. (o, itself m ((==_iff o.id target).0 e), refl, omega arith)))

  is_parent : (o : Org) (p : Option Uuid) → has (λ i. o.id == i) p ≡ true → p ≡ some o.id
  is_parent o none e = cc
  is_parent o (some i) e = ap some (sym ((==_iff o.id i).0 e))

  parents-Shows : (c : OrgChainRow) → Shows orgs target c → All (Shows orgs target) (parents orgs c)
  unfolding parents
  parents-Shows c (p, a, e, h) = elim (Bool-cases (ltb c.depth max_hierarchy_depth)) [
    | inl below ↦ rw below (
        All-map (Shows orgs target) (chain_row (c.depth + 1)) _ (
          All-select _ _ orgs
            (λ o m t. (o, rw add-one (parent a m (by_parent o t)), refl, ground arith))))
    | inr limit ↦ rw limit nil
  ]
    where
      by_parent :
          (o : Org) → has (λ i. o.id == i) c.parent_org_id ≡ true → p.parent_org_id ≡ some o.id
      by_parent o t = ap (λ (x : OrgChainRow). x.parent_org_id) (sym e) ∙ is_parent o _ t

  chain_step-Shows :
      {working : List OrgChainRow}
      → All (Shows orgs target) working
      → All (Shows orgs target) (chain_step orgs working)
  unfolding chain_step
  chain_step-Shows nil = nil
  chain_step-Shows (cons c h) = All-append (parents-Shows _ c) (chain_step-Shows h)

  chain_from-Shows :
      (rounds : ℕ) {working : List OrgChainRow}
      → All (Shows orgs target) working
      → All (Shows orgs target) (chain_from rounds orgs working)
  unfolding chain_from
  chain_from-Shows zero h = nil
  chain_from-Shows (suc n) h = All-append h (chain_from-Shows n (chain_step-Shows h))

  -- Every row of the query is an ancestor of the target, at its distance and within the limit.
  pub org_chain-Shows : All (Shows orgs target) (org_chain orgs target)
  unfolding org_chain
  org_chain-Shows = chain_from-Shows 11 chain_base-Shows

-- The working table after some rounds.
working_after : ℕ → List Org → List OrgChainRow → List OrgChainRow
working_after zero orgs working = working
working_after (suc n) orgs working = working_after n orgs (chain_step orgs working)

working_after-suc :
    (n : ℕ) (orgs : List Org) (working : List OrgChainRow)
    → working_after (suc n) orgs working ≡ chain_step orgs (working_after n orgs working)
unfolding working_after
working_after-suc zero orgs working = refl
working_after-suc (suc n) orgs working = working_after-suc n orgs (chain_step orgs working)

-- A row of the working table of an earlier round is in the result.
Any-chain_from :
    {P : OrgChainRow → Type 0} (n rounds : ℕ) (orgs : List Org) (working : List OrgChainRow)
    → n < rounds
    → Any P (working_after n orgs working)
    → Any P (chain_from rounds orgs working)
unfolding working_after chain_from
Any-chain_from n zero orgs working h a = absurd (omega arith)
Any-chain_from zero (suc rounds) orgs working h a = Any-append_left _ a
Any-chain_from (suc n) (suc rounds) orgs working h a =
    Any-append_right working
      (Any-chain_from n rounds orgs (chain_step orgs working) (omega arith) a)

module _ (orgs : List Org) (target : Uuid) where
  Any-parents :
      (c : OrgChainRow) (o : Org)
      → c.depth < max_hierarchy_depth
      → Any (λ x. x ≡ o) orgs
      → c.parent_org_id ≡ some o.id
      → Any (λ r. r ≡ chain_row (suc c.depth) o) (parents orgs c)
  unfolding parents
  Any-parents c o h m e = rw (lt→ltb c.depth 10 h) (
      Any-map (λ r. r ≡ chain_row (suc c.depth) o) (chain_row (c.depth + 1)) _
        (Any-select _ _ orgs (
          Any-map_fun
            (λ x q. (rw add-one (ap (chain_row (suc c.depth)) q), rw (q, e) (==_refl o.id))) m)))

  Any-chain_step :
      (c : OrgChainRow) (o : Org) (working : List OrgChainRow)
      → c.depth < max_hierarchy_depth
      → Any (λ x. x ≡ o) orgs
      → c.parent_org_id ≡ some o.id
      → Any (λ r. r ≡ c) working
      → Any (λ r. r ≡ chain_row (suc c.depth) o) (chain_step orgs working)
  unfolding chain_step
  Any-chain_step c o [] h m e a = elim a [ ]
  Any-chain_step c o (r ∷ working) h m e (here q) =
      Any-append_left {xs = parents orgs r} (chain_step orgs working) (rw q (Any-parents c o h m e))
  Any-chain_step c o (r ∷ working) h m e (there a) =
      Any-append_right (parents orgs r) (Any-chain_step c o working h m e a)

  -- The ancestor at distance n is in the working table of round n.
  Any-working_after :
      {o : Org} {depth : ℕ}
      → Ancestor orgs target o depth
      → depth ≤ max_hierarchy_depth
      → Any (λ r. r ≡ chain_row depth o) (working_after depth orgs (chain_base orgs target))
  unfolding working_after chain_base
  Any-working_after {o} (itself m e) h =
      Any-map (λ r. r ≡ chain_row 0 o) (chain_row 0) _
        (Any-select _ _ orgs
          (Any-map_fun (λ x q. (ap (chain_row 0) q, rw (q, e) (==_refl target))) m))
  Any-working_after (parent {c = c} {depth = d} a m e) h =
      rw working_after-suc
        (Any-chain_step (chain_row d c) _ _ (omega arith) m e (Any-working_after a (omega arith)))

  -- Every ancestor within the limit is a row of the query.
  pub Any-org_chain :
      {o : Org} {depth : ℕ}
      → Ancestor orgs target o depth
      → depth ≤ max_hierarchy_depth
      → Any (λ r. r ≡ chain_row depth o) (org_chain orgs target)
  unfolding org_chain
  Any-org_chain {depth = d} a h = Any-chain_from d 11 _ _ (omega arith) (Any-working_after a h)
