-- ===== src/Engine/Composition/Order.antt =====
-- `resolve_contract_providers` of crates/extension-engine/src/composition.rs: the providers are collected from
-- hash maps, whose order is arbitrary.
use rintawa.Prelude.{
  ◌≡◌, ◌∙◌, refl, sym, ap, Bool, true, false, List, [], ◌∷◌, map, find, Option, none, some, Result,
  ok, err, holds_iff, Bool-cases, inl, inr, codes, codes_leb_antisymm, codes_leb_trans,
  codes_leb_total, codes_inj, Shuffle, Shuffle-select, Shuffle-map, length-Shuffle, any-Shuffle,
  any, IsOrder, sort_by-Shuffle, map-sort_by, arith,
}
use rintawa.Runtime.Effect.{ContractKey}
use rintawa.Engine.Secrets.{ComponentRef, ComponentRef-discrete, SecretManager}
use rintawa.Engine.Contracts.{
  ContractResolutionPolicy, single, multiple, OwnedContractProvider, component_ref_leb,
}
use rintawa.Engine.Composition.{
  UnresolvedContractReason, no_eligible_provider, preferred_provider_unavailable, is_eligible,
  provides, is_preferred, select_providers, resolve_matching, resolve_preferred, resolve_by,
  resolve_contract_providers,
}

ref_antisymm :
    (a b : ComponentRef) → component_ref_leb a b ≡ true → component_ref_leb b a ≡ true → a ≡ b
unfolding component_ref_leb
ref_antisymm a b h k =
    let i : a.instance_id ≡ b.instance_id = codes_inj a.instance_id b.instance_id (
      codes_leb_antisymm (codes a.instance_id) (codes b.instance_id) (ground arith)
        (ground arith)) in
    let c : a.component_id ≡ b.component_id = codes_inj a.component_id b.component_id (
      codes_leb_antisymm (codes a.component_id) (codes b.component_id) (ground arith)
        (ground arith)) in
    cc

ref_trans :
    (a b c : ComponentRef)
    → component_ref_leb a b ≡ true
    → component_ref_leb b c ≡ true
    → component_ref_leb a c ≡ true
unfolding component_ref_leb
ref_trans a b c h k = ground (
  arith,
  codes_leb_trans (codes a.instance_id) (codes b.instance_id) (codes c.instance_id),
  codes_leb_trans (codes b.instance_id) (codes c.instance_id) (codes a.instance_id),
  codes_leb_trans (codes c.instance_id) (codes a.instance_id) (codes b.instance_id),
  codes_leb_trans (codes a.component_id) (codes b.component_id) (codes c.component_id),
)

ref_total : (a b : ComponentRef) → component_ref_leb a b ≡ false → component_ref_leb b a ≡ true
unfolding component_ref_leb
ref_total a b h = ground (
  arith,
  codes_leb_total (codes a.instance_id) (codes b.instance_id),
  codes_leb_total (codes b.instance_id) (codes a.instance_id),
  codes_leb_total (codes a.component_id) (codes b.component_id),
)

refs-IsOrder : IsOrder component_ref_leb
refs-IsOrder = record { antisymm = ref_antisymm; transitive = ref_trans; total = ref_total }

-- What the selection reads of its candidates.
choose :
    ContractResolutionPolicy
    → List ComponentRef
    → Result UnresolvedContractReason (List ComponentRef)
choose resolution [] = err no_eligible_provider
choose single (first ∷ rest) = ok (first ∷ [])
choose multiple (first ∷ rest) = ok (first ∷ rest)

select_providers-choose :
    (resolution : ContractResolutionPolicy) (ps : List OwnedContractProvider)
    → select_providers resolution ps ≡ choose resolution (map (λ p. p.owner) ps)
unfolding select_providers choose
select_providers-choose resolution [] = refl
select_providers-choose single (p ∷ rest) = refl
select_providers-choose multiple (p ∷ rest) = refl

resolve_matching-Shuffle :
    (m : SecretManager) (resolution : ContractResolutionPolicy) (ps qs : List OwnedContractProvider)
    → Shuffle ps qs
    → resolve_matching m resolution ps ≡ resolve_matching m resolution qs
unfolding resolve_matching
resolve_matching-Shuffle m resolution [] [] h = refl
resolve_matching-Shuffle m resolution [] (q ∷ qs) h = absurd (omega (arith, length-Shuffle h))
resolve_matching-Shuffle m resolution (p ∷ ps) [] h = absurd (omega (arith, length-Shuffle h))
resolve_matching-Shuffle m resolution (p ∷ ps) (q ∷ qs) h =
    select_providers-choose resolution _
    ∙ ap (choose resolution) (
        map-sort_by component_ref_leb (λ p. p.owner) _
        ∙ sort_by-Shuffle component_ref_leb refs-IsOrder
            (Shuffle-map (λ p. p.owner) (Shuffle-select (is_eligible m) h))
        ∙ sym (map-sort_by component_ref_leb (λ p. p.owner) _))
    ∙ sym (select_providers-choose resolution _)

pub is_preferred-owner :
    (m : SecretManager) (preferred : ComponentRef) (p : OwnedContractProvider)
    → is_preferred m preferred p ≡ true
    → p.owner ≡ preferred
unfolding is_preferred
is_preferred-owner m preferred p h =
    (holds_iff (ComponentRef-discrete p.owner preferred)).0 (ground arith)

-- The preferred provider, or that there is none that is eligible.
preferred_answer : ComponentRef → Bool → Result UnresolvedContractReason (List ComponentRef)
preferred_answer preferred true = ok (preferred ∷ [])
preferred_answer preferred false = err preferred_provider_unavailable

resolve_preferred-any :
    (m : SecretManager) (preferred : ComponentRef) (ps : List OwnedContractProvider)
    → resolve_preferred m preferred ps
      ≡ preferred_answer preferred (any (is_preferred m preferred) ps)
unfolding resolve_preferred preferred_answer any find
resolve_preferred-any m preferred [] = refl
resolve_preferred-any m preferred (p ∷ ps) = elim (Bool-cases (is_preferred m preferred p)) [
  | inl here ↦ rw here (ap (λ r. ok (r ∷ [])) (is_preferred-owner m preferred p here))
  | inr there ↦ rw there (resolve_preferred-any m preferred ps)
]

-- The providers of a contract that are selected do not depend on the order in which the endpoints of the
-- instances come out of the hash maps, whatever the policy and the preference; nor does the reason of a failure.
pub resolve_contract_providers-Shuffle :
    (contract : ContractKey) (resolution : ContractResolutionPolicy)
    (ps qs : List OwnedContractProvider) (preferred : Option ComponentRef) (m : SecretManager)
    → Shuffle ps qs
    → resolve_contract_providers contract resolution ps preferred m
      ≡ resolve_contract_providers contract resolution qs preferred m
unfolding resolve_contract_providers resolve_by
resolve_contract_providers-Shuffle contract single ps qs (some preferred) m h =
    resolve_preferred-any m preferred _
    ∙ ap (preferred_answer preferred)
        (any-Shuffle (is_preferred m preferred) (Shuffle-select (provides contract) h))
    ∙ sym (resolve_preferred-any m preferred _)
resolve_contract_providers-Shuffle contract single ps qs none m h =
    resolve_matching-Shuffle m single _ _ (Shuffle-select (provides contract) h)
resolve_contract_providers-Shuffle contract multiple ps qs preferred m h =
    resolve_matching-Shuffle m multiple _ _ (Shuffle-select (provides contract) h)
