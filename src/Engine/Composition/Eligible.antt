-- ===== src/Engine/Composition/Eligible.antt =====
-- `resolve_contracts` of crates/extension-engine/src/composition.rs: who is bound to whom.
use rintawa.Prelude.{
  ◌≡◌, refl, subst, true, List, [], ◌∷◌, map, select, find, Option, none, some, ok, Result-cases,
  ok_or, >>=-eq-ok, guard->>-eq-ok, holds, inl, inr, All, In, In-select, All-of_In, All-select,
  All-sort_by, All-map, All-mono, All-snoc, find_sound, All-find, ok_or-eq-ok, arith,
}
use rintawa.Runtime.Effect.{ContractKey}
use rintawa.Engine.Secrets.{ComponentRef, SecretManager}
use rintawa.Engine.Contracts.{
  ContractKey-discrete, ContractResolutionPolicy, single, multiple, ContractDefinition,
  OwnedContractProvider, OwnedContractConsumer,
}
use rintawa.Engine.Composition.{
  ContractBinding, CompositionSnapshot, requirements_satisfied, is_eligible, provides, is_preferred,
  owner_leb, select_providers, resolve_matching, resolve_preferred, resolve_by,
  resolve_contract_providers, resolve_consumer, push_resolved, resolve_each, resolve_contracts,
}

is_preferred-eligible :
    (m : SecretManager) (preferred : ComponentRef) (p : OwnedContractProvider)
    → is_preferred m preferred p ≡ true
    → is_eligible m p ≡ true
unfolding is_preferred
is_preferred-eligible m preferred p h = ground arith

-- A component that provides the contract and holds the grants that its endpoint requires.
pub record IsSelected (m : SecretManager) (contract : ContractKey)
    (providers : List OwnedContractProvider) (r : ComponentRef) : Type 0 where
  pub endpoint : OwnedContractProvider
  pub listed : In endpoint providers
  pub owner : endpoint.owner ≡ r
  pub of_contract : provides contract endpoint ≡ true
  pub eligible : is_eligible m endpoint ≡ true

module _ (m : SecretManager) (contract : ContractKey) (providers : List OwnedContractProvider) where
  abbrev Candidate : OwnedContractProvider → Type 0
  Candidate p = In p providers × (provides contract p ≡ true)

  abbrev Chosen : OwnedContractProvider → Type 0
  Chosen p = Candidate p × (is_eligible m p ≡ true)

  selected : (p : OwnedContractProvider) → Chosen p → IsSelected m contract providers p.owner
  selected p h = record {
    endpoint = p;
    listed = h.0.0;
    owner = refl;
    of_contract = h.0.1;
    eligible = h.1;
  }

  select_providers-IsSelected :
      (resolution : ContractResolutionPolicy) (ps : List OwnedContractProvider)
      (rs : List ComponentRef)
      → All Chosen ps
      → select_providers resolution ps ≡ ok rs
      → All (IsSelected m contract providers) rs
  unfolding select_providers
  select_providers-IsSelected resolution [] rs h e = absurd (cc)
  select_providers-IsSelected single (p ∷ ps) rs h e =
      subst (All (IsSelected m contract providers)) {x = p.owner ∷ []} {y = rs} (cc)
        (selected p h.0, tt)
  select_providers-IsSelected multiple (p ∷ ps) rs h e =
      subst (All (IsSelected m contract providers)) {x = map (λ p. p.owner) (p ∷ ps)} {y = rs} (cc)
        (All-map (IsSelected m contract providers) (λ (p : OwnedContractProvider). p.owner) (p ∷ ps)
          (All-mono Chosen (λ p. IsSelected m contract providers p.owner) (p ∷ ps) selected h))

  resolve_matching-IsSelected :
      (resolution : ContractResolutionPolicy) (ps : List OwnedContractProvider)
      (rs : List ComponentRef)
      → All Candidate ps
      → resolve_matching m resolution ps ≡ ok rs
      → All (IsSelected m contract providers) rs
  unfolding resolve_matching
  resolve_matching-IsSelected resolution [] rs h e = absurd (cc)
  resolve_matching-IsSelected resolution (p ∷ ps) rs h e =
      select_providers-IsSelected resolution _ rs
        (All-sort_by Chosen owner_leb _
          (All-select Candidate Chosen (is_eligible m) (p ∷ ps) (λ q e c. (c, e)) h))
        e

  resolve_preferred-IsSelected :
      (preferred : ComponentRef) (ps : List OwnedContractProvider) (rs : List ComponentRef)
      → All Candidate ps
      → resolve_preferred m preferred ps ≡ ok rs
      → All (IsSelected m contract providers) rs
  unfolding resolve_preferred
  resolve_preferred-IsSelected preferred ps rs h e =
      let (p, found, more) = >>=-eq-ok (ok_or (find (is_preferred m preferred) ps) _) _ e in
      let here = ok_or-eq-ok (find (is_preferred m preferred) ps) _ found in
      let candidate : Candidate p = All-find Candidate (is_preferred m preferred) ps h here in
      let (good, _) = find_sound (is_preferred m preferred) ps here in
      subst (All (IsSelected m contract providers)) {x = p.owner ∷ []} {y = rs} (cc)
        (selected p (candidate, is_preferred-eligible m preferred p good), tt)

  candidates : All Candidate (select (provides contract) providers)
  candidates = All-of_In Candidate _ (λ p h. In-select (provides contract) p providers h)

  pub resolve_contract_providers-IsSelected :
      (resolution : ContractResolutionPolicy) (preferred : Option ComponentRef)
      (rs : List ComponentRef)
      → resolve_contract_providers contract resolution providers preferred m ≡ ok rs
      → All (IsSelected m contract providers) rs
  unfolding resolve_contract_providers resolve_by
  resolve_contract_providers-IsSelected single (some preferred) rs e =
      resolve_preferred-IsSelected preferred _ rs candidates e
  resolve_contract_providers-IsSelected single none rs e =
      resolve_matching-IsSelected single _ rs candidates e
  resolve_contract_providers-IsSelected multiple preferred rs e =
      resolve_matching-IsSelected multiple _ rs candidates e

-- A binding is one of a consumer that declares the contract and holds the grants it requires, with providers
-- that hold theirs.
pub record IsGranted (definitions : List ContractDefinition)
    (providers : List OwnedContractProvider) (consumers : List OwnedContractConsumer)
    (m : SecretManager) (b : ContractBinding) : Type 0 where
  pub endpoint : OwnedContractConsumer
  pub listed : In endpoint consumers
  pub consumer : endpoint.owner ≡ b.consumer
  pub contract : endpoint.consumer.contract ≡ b.contract
  pub allowed : requirements_satisfied m endpoint.owner endpoint.consumer.required_grants ≡ true
  pub defined :
      (d : ContractDefinition) × (find
          (λ d. holds (ContractKey-discrete d.contract b.contract))
          definitions
        ≡ some d)
  pub providers_hold : All (IsSelected m b.contract providers) b.providers

module _ (definitions : List ContractDefinition) (providers : List OwnedContractProvider)
    (preferred : ContractKey → Option ComponentRef) (m : SecretManager)
    (consumers : List OwnedContractConsumer) where
  consumer-IsGranted :
      (c : OwnedContractConsumer) (rs : List ComponentRef)
      → In c consumers
      → resolve_consumer definitions providers preferred m c ≡ ok rs
      → IsGranted definitions providers consumers m (record {
        consumer = c.owner;
        contract = c.consumer.contract;
        required = c.consumer.required;
        providers = rs;
      })
  unfolding resolve_consumer
  consumer-IsGranted c rs at e =
      let (d, found, e1) =
        >>=-eq-ok
          (ok_or
            (find (λ d. holds (ContractKey-discrete d.contract c.consumer.contract)) definitions) _)
          _ e in
      let (allowed, e2) =
        guard->>-eq-ok (requirements_satisfied m c.owner c.consumer.required_grants) _ _ e1 in
      record {
        endpoint = c;
        listed = at;
        consumer = refl;
        contract = refl;
        allowed = allowed;
        defined = (d, ok_or-eq-ok _ _ found);
        providers_hold =
            resolve_contract_providers-IsSelected m c.consumer.contract providers d.resolution
              (preferred c.consumer.contract) rs e2;
      }

  push_resolved-IsGranted :
      (c : OwnedContractConsumer) (s : CompositionSnapshot)
      → In c consumers
      → All (IsGranted definitions providers consumers m) s.bindings
      → All
          (IsGranted definitions providers consumers m)
          (push_resolved c (resolve_consumer definitions providers preferred m c) s).bindings
  unfolding push_resolved
  push_resolved-IsGranted c s at h =
      elim (Result-cases (resolve_consumer definitions providers preferred m c)) [
        | inl (rs, e) ↦ rw e (
            All-snoc (IsGranted definitions providers consumers m) s.bindings _ h
              (consumer-IsGranted c rs at e))
        | inr (reason, e) ↦ rw e h
      ]

  resolve_each-IsGranted :
      (cs : List OwnedContractConsumer) (s : CompositionSnapshot)
      → ((c : OwnedContractConsumer) → In c cs → In c consumers)
      → All (IsGranted definitions providers consumers m) s.bindings
      → All
          (IsGranted definitions providers consumers m)
          (resolve_each definitions providers preferred m cs s).bindings
  unfolding resolve_each
  resolve_each-IsGranted [] s sub h = h
  resolve_each-IsGranted (c ∷ cs) s sub h =
      resolve_each-IsGranted cs
        (push_resolved c (resolve_consumer definitions providers preferred m c) s)
        (λ d at. sub d (inr at)) (push_resolved-IsGranted c s (sub c (inl refl)) h)

  -- In a resolved composition every binding belongs to a consumer of the set that declares the contract and
  -- holds all the grants that its endpoint requires, and every provider of the binding is one of the set that
  -- provides the contract and holds all the grants that its own endpoint requires.
  pub resolve_contracts-IsGranted :
      All
        (IsGranted definitions providers consumers m)
        (resolve_contracts definitions providers consumers preferred m).bindings
  unfolding resolve_contracts
  resolve_contracts-IsGranted =
      All-sort_by (IsGranted definitions providers consumers m) _ _
        (resolve_each-IsGranted consumers _ (λ c at. at) tt)
