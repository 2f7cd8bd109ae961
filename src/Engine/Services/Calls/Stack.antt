-- ===== src/Engine/Services/Calls/Stack.antt =====
-- The stack of the providers that are running in crates/extension-engine/src/services.rs, and the components that
-- are registered.
use rintawa.Prelude.{
  ℕ, ◌≤◌, ◌<◌, ◌≡◌, ◌∙◌, refl, sym, ap, subst, inl, inr, String, String-discrete, Bool, true, false,
  not, List, [], ◌∷◌, ◌++◌, map, any, any-append, count, some, Option-cases, ok, err, >>=-eq-ok,
  ok_or, ok_or-eq-ok, holds, holds_iff, holds-false, get, if_pos, if_neg, arith,
}
use rintawa.Runtime.Effect.{unavailable}
use rintawa.Engine.Secrets.{ComponentRef, ComponentRef-discrete}
use rintawa.Engine.Component.{Component}
use rintawa.Engine.Services.{
  ServiceCallResult, ServiceExtensionInstance, ServiceRuntimeState, component, component_identity,
}
use rintawa.Engine.Services.Routing.{Located, locate}
use rintawa.Engine.Services.Calls.{is_running}

-- The components of the registered instances.
unfoldable pub registered : List (String × ServiceExtensionInstance) → List ComponentRef
registered [] = []
registered ((id, instance) ∷ rest) =
    map (λ c. record { instance_id = id; component_id = c.0 }) instance.components
    ++ registered rest

abbrev pub same_ref : ComponentRef → ComponentRef → Bool
same_ref p r = holds (ComponentRef-discrete r p)

unfoldable pub not_running : List ComponentRef → List ComponentRef → ℕ
not_running stack refs = count (λ r. not (is_running r stack)) refs

not_running-push_le :
    (p : ComponentRef) (stack refs : List ComponentRef)
    → not_running (stack ++ p ∷ []) refs ≤ not_running stack refs
unfolding not_running is_running count any
not_running-push_le p stack [] = omega arith
not_running-push_le p stack (r ∷ refs) =
    let ih = not_running-push_le p stack refs in
    rw (any-append (λ q. holds (ComponentRef-discrete q r)) stack (p ∷ [])) (ground arith)

push_running :
    (p : ComponentRef) (stack : List ComponentRef) → is_running p (stack ++ p ∷ []) ≡ true
unfolding is_running any
push_running p stack =
    any-append (λ q. holds (ComponentRef-discrete q p)) stack (p ∷ [])
    ∙ ground (arith, (holds_iff (ComponentRef-discrete p p)).1 refl)

pub not_running-push_lt :
    (p : ComponentRef) (stack refs : List ComponentRef)
    → any (same_ref p) refs ≡ true
    → is_running p stack ≡ false
    → not_running (stack ++ p ∷ []) refs < not_running stack refs
unfolding not_running is_running count any
not_running-push_lt p stack [] h k = absurd (cc)
not_running-push_lt p stack (r ∷ refs) h k =
    let le = not_running-push_le p stack refs in
    elim (ComponentRef-discrete r p) [
      | yes e ↦ rw (e, push_running p stack, k) (omega (arith, le))
      | no n ↦
          let tail : any (same_ref p) refs ≡ true =
            ground (arith, holds-false (ComponentRef-discrete r p) n) in
          let ih = not_running-push_lt p stack refs tail k in
          rw (any-append (λ q. holds (ComponentRef-discrete q r)) stack (p ∷ [])) (ground arith)
    ]

get-registered_in :
    (id c : String) (component : Component) (components : List (String × Component))
    → get String-discrete c components ≡ some component
    → any
        (same_ref (record { instance_id = id; component_id = c }))
        (map (λ c. record { instance_id = id; component_id = c.0 }) components)
      ≡ true
unfolding get any
get-registered_in id c component [] h = absurd (cc)
get-registered_in id c component ((d, x) ∷ rest) h = elim (String-discrete d c) [
  | yes e ↦
      rw
        ((holds_iff (
            ComponentRef-discrete (record { instance_id = id; component_id = d })
              (record { instance_id = id; component_id = c }))).1
          (ap (λ c. record { instance_id = id; component_id = c }) e))
        refl
  | no n ↦
      let ih =
        get-registered_in id c component rest (sym (if_neg (String-discrete d c) n _ _) ∙ h) in
      ground arith
]

get-registered :
    (p : ComponentRef) (instance : ServiceExtensionInstance) (x : Component)
    (instances : List (String × ServiceExtensionInstance))
    → get String-discrete p.instance_id instances ≡ some instance
    → get String-discrete p.component_id instance.components ≡ some x
    → any (same_ref p) (registered instances) ≡ true
unfolding get registered
get-registered p instance x [] h k = absurd (cc)
get-registered p instance x ((id, i) ∷ rest) h k = elim (String-discrete id p.instance_id) [
  | yes e ↦
      let here : i ≡ instance = cc (
        sym (
          if_pos (String-discrete id p.instance_id) e (some i)
            (get String-discrete p.instance_id rest))
        ∙ h) in
      let found : get String-discrete p.component_id i.components ≡ some x = rw here k in
      let there = get-registered_in id p.component_id x i.components found in
      let here_p : any (same_ref p)
            (map (λ c. record { instance_id = id; component_id = c.0 }) i.components)
          ≡ true =
        subst
          (λ q.
            any (same_ref q)
              (map (λ c. record { instance_id = id; component_id = c.0 }) i.components)
            ≡ true)
          (ap (λ j. record { instance_id = j; component_id = p.component_id }) e) there in
      rw
        (
          any-append (same_ref p)
              (map (λ c. record { instance_id = id; component_id = c.0 }) i.components)
              (registered rest),
          here_p,
        )
        refl
  | no n ↦
      let ih =
        get-registered p instance x rest (sym (if_neg (String-discrete id p.instance_id) n _ _) ∙ h)
          k in
      rw
        (any-append (same_ref p)
          (map (λ c. record { instance_id = id; component_id = c.0 }) i.components)
          (registered rest))
        (ground arith)
]

component-registered :
    (s : ServiceRuntimeState) (p : ComponentRef) (x : Component)
    → component s p ≡ some x
    → any (same_ref p) (registered s.instances) ≡ true
unfolding component
component-registered s p x h = elim (Option-cases (get String-discrete p.instance_id s.instances)) [
  | inl nothing ↦ let k = rw (nothing, component) at h in absurd (cc)
  | inr (instance, there) ↦
      get-registered p instance x s.instances there (rw (there, component) at h)
]

pub locate-registered :
    (s : ServiceRuntimeState) (p : ComponentRef) (l : Located)
    → locate s p ≡ ok l
    → any (same_ref l.0) (registered s.instances) ≡ true
unfolding locate component
locate-registered s p l h =
    let (x, found, h1) = >>=-eq-ok (ok_or (component s p) unavailable) _ h in
    let (identity, known, h2) = >>=-eq-ok (ok_or (component_identity s p) unavailable) _ h1 in
    let same : p ≡ l.0 =
      ap (λ (r : ServiceCallResult Located). elim r [ ok x ↦ x.0 | err e ↦ p ]) h2 in
    let at = ok_or-eq-ok _ _ found in
    subst (λ q. any (same_ref q) (registered s.instances) ≡ true) same
      (component-registered s p x at)
