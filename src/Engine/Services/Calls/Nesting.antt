-- ===== src/Engine/Services/Calls/Nesting.antt =====
-- The nesting of the calls of crates/extension-engine/src/services.rs: the stack of running providers bounds it.
use rintawa.Prelude.{
  ℕ, ◌≤◌, ◌≡◌, ◌∙◌, refl, ap, inl, inr, String, Bool, true, false, not, List, [], ◌∷◌, count,
  length, Option, some, Bool-cases, ok, err, ◌>>=◌, >>=-eq-ok, leb, arith,
}
use rintawa.Runtime.Effect.{ContractKey, request_too_large}
use rintawa.Engine.Secrets.{ComponentRef, Vault, SecretManager}
use rintawa.Engine.Services.{ServiceCallResult, ServiceRuntimeState}
use rintawa.Engine.Services.Routing.{resolve_platform_provider}
use rintawa.Engine.Services.Calls.Stack.{registered, not_running}
use rintawa.Engine.Services.Calls.{
  Lock, is_running, context_calls, call, call_from_execution, call_provider, call_platform,
}
use rintawa.Engine.Services.Calls.Platform.{platform-registered}
use rintawa.Engine.Services.Calls.Answers.{
  context_calls-return, resolved-Returns, call_with_stack-Returns, call_provider_with_stack-Returns,
}

count-le-length {ℓ} : {A : Type ℓ} (p : A → Bool) (xs : List A) → count p xs ≤ length xs
unfolding count
count-le-length p [] = omega arith
count-le-length p (x ∷ xs) = ground (arith, count-le-length p xs)

-- Every service call comes to an answer: with as much fuel as there are components registered, a call of a
-- component, of a callback, of a provider handle or of the platform never runs out of it. For a provider that is
-- already running is refused, so that the stack holds each component once. This bounds the nesting of the calls:
-- each callback by itself is a finite sequence of requests to its context.
pub call-returns :
    (load : Vault) (m : SecretManager) (lock : ComponentRef → Lock) (max fuel : ℕ)
    (s : ServiceRuntimeState) (caller : ComponentRef) (contract : ContractKey) (handle : ℕ)
    (scope_id : String) (expected : Option String) (request : List ℕ)
    → length (registered s.instances) ≤ fuel
    → ((r : ServiceCallResult (List ℕ)) × ((call load m lock max fuel s caller contract request).1
          ≡ some r))
      × ((r : ServiceCallResult (List ℕ)) × ((call_from_execution load m lock max fuel s caller
              contract request).1
            ≡ some r))
      × ((r : ServiceCallResult (List ℕ)) × ((call_provider load m lock max fuel s caller handle
              request).1
            ≡ some r))
      × ((r : ServiceCallResult (List ℕ)) × ((call_platform load m lock max fuel s scope_id expected
              contract request).1
            ≡ some r))
unfolding call call_from_execution call_provider call_platform not_running
call-returns load m lock max fuel s caller contract handle scope_id expected request enough =
    let context = context_calls load m lock max fuel in
    let deeper = context_calls-return load m lock max s.instances fuel in
    let bound : not_running [] (registered s.instances) ≤ fuel =
      omega (arith, count-le-length (λ r. not (is_running r [])) (registered s.instances)) in
    let a =
      call_with_stack-Returns load m lock max s.instances fuel context deeper [] caller false s
        contract request bound refl in
    let b =
      call_with_stack-Returns load m lock max s.instances fuel context deeper [] caller true s
        contract request bound refl in
    let c =
      call_provider_with_stack-Returns load m lock max s.instances fuel context deeper [] caller
        false s handle request bound refl in
    let d =
      resolved-Returns load m lock max s.instances fuel context deeper [] s request
        (resolve_platform_provider m s scope_id expected contract >>= λ located.
          ok (contract, located))
        bound
        (λ k l h.
          let (l', found, same) =
            >>=-eq-ok (resolve_platform_provider m s scope_id expected contract)
              (λ located. ok (contract, located)) h in
          let there : l' ≡ l = cc in
          platform-registered m s scope_id expected contract l (found ∙ ap ok there))
        refl in
    (
      (a.answer, a.given),
      (b.answer, b.given),
      (c.answer, c.given),
      elim (Bool-cases (leb (length request) max)) [
        | inl fits ↦ rw fits (d.answer, d.given)
        | inr large ↦ rw large (err request_too_large, refl)
      ],
    )
