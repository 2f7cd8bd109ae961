-- ===== src/Engine/Services/Calls/Answers.antt =====
-- The calls of crates/extension-engine/src/services.rs come to an answer, if the calls that they make do.
use rintawa.Prelude.{
  ℕ, zero, suc, ◌≤◌, ◌<◌, ◌≡◌, ◌∙◌, refl, ap, subst, inl, inr, String, Bool, true, List, [], ◌∷◌,
  ◌++◌, any, length, Option, some, Bool-cases, ok, err, >>=-eq-ok, leb, arith,
}
use rintawa.Runtime.Effect.{ContractKey}
use rintawa.Engine.Secrets.{ComponentRef, Vault, SecretManager, read_for_component}
use rintawa.Engine.Component.{
  Behaviour, returns, fails, read_secret, call_service, list_service_providers,
  call_service_provider,
}
use rintawa.Engine.Services.{
  ServiceCallResult, ServiceExtensionInstance, RouteKey, ServiceRuntimeState,
}
use rintawa.Engine.Services.Routing.{Located, resolve_provider, list_providers_with_mode}
use rintawa.Engine.Services.Calls.Stack.{registered, same_ref, not_running, not_running-push_lt}
use rintawa.Engine.Services.Calls.{
  Lock, Calls, provider_limit, check_response, check_answer, is_running, execute, run_provider,
  lock_provider, invoke_provider, invoke_resolved, call_with_stack, call_provider_with_stack,
  context_calls,
}
use rintawa.Engine.Services.Calls.Resolved.{
  resolve_provider-kept, resolve_provider-registered, list_providers-kept, handle-registered,
}

-- A call returns if it gives an answer, and leaves the instances alone.
pub record Returns {ℓ} {A : Type ℓ} (instances : List (String × ServiceExtensionInstance))
    (o : ServiceRuntimeState × Option A) : Type ℓ where
  pub kept : o.0.instances ≡ instances
  pub answer : A
  pub given : o.1 ≡ some answer

module _ (load : Vault) (m : SecretManager) (lock : ComponentRef → Lock) (max : ℕ)
    (instances : List (String × ServiceExtensionInstance)) where
  pub record CallsReturn (calls : Calls) : Type 0 where
    pub called :
        (s : ServiceRuntimeState) (contract : ContractKey) (request : List ℕ)
        → s.instances ≡ instances
        → Returns instances (calls.call s contract request)
    pub handled :
        (s : ServiceRuntimeState) (handle : ℕ) (request : List ℕ)
        → s.instances ≡ instances
        → Returns instances (calls.call_provider s handle request)

  execute-Returns :
      (owner : ComponentRef) (calls : Calls) (s : ServiceRuntimeState) (b : Behaviour)
      → CallsReturn calls
      → s.instances ≡ instances
      → Returns instances (execute load m lock max owner calls s b)
  unfolding execute
  execute-Returns owner calls s (returns response) r e = record {
    kept = e;
    answer = ok response;
    given = refl;
  }
  execute-Returns owner calls s (fails x) r e = record { kept = e; answer = err x; given = refl }
  execute-Returns owner calls s (read_secret path k) r e =
      execute-Returns owner calls s (k (read_for_component load m owner path)) r e
  execute-Returns owner calls s (call_service contract request k) r e =
      let c = r.called s contract request e in
      rw (c.given, execute)
        (execute-Returns owner calls (calls.call s contract request).0 (k c.answer) r c.kept)
  execute-Returns owner calls s (list_service_providers contract k) r e =
      let key : RouteKey = record {
        caller = owner;
        contract = contract;
        allow_inactive_caller = true;
      } in
      execute-Returns owner calls (list_providers_with_mode m s key).0
        (k (list_providers_with_mode m s key).1) r (list_providers-kept m s key ∙ e)
  execute-Returns owner calls s (call_service_provider handle request k) r e =
      let c = r.handled s handle request e in
      rw (c.given, execute)
        (execute-Returns owner calls (calls.call_provider s handle request).0 (k c.answer) r c.kept)

  -- A provider that is not running leaves fewer that are not.
  module _ (fuel : ℕ) (context : List ComponentRef → ComponentRef → Calls)
      (ih : (stack : List ComponentRef) (owner : ComponentRef)
        → not_running stack (registered instances) < fuel
        → CallsReturn (context stack owner)) where
    run_provider-Returns :
        (stack : List ComponentRef) (s : ServiceRuntimeState) (l : Located) (contract : ContractKey)
        (request : List ℕ)
        → CallsReturn (context (stack ++ l.0 ∷ []) l.0)
        → s.instances ≡ instances
        → Returns instances (run_provider load m lock max context stack s l contract request)
    unfolding run_provider
    run_provider-Returns stack s (p, x, identity) contract request r e =
        elim (Bool-cases (leb (length request) (provider_limit max x.service_message_limit))) [
          | inr large ↦ rw large (record { kept = e; answer = _; given = refl })
          | inl fits ↦
              let ran =
                execute-Returns p (context (stack ++ p ∷ []) p) s
                  (x.handle_service contract request) r e in
              rw fits (record {
                kept = ran.kept;
                answer = check_response (provider_limit max x.service_message_limit) ran.answer;
                given = ap (check_answer (provider_limit max x.service_message_limit)) ran.given;
              })
        ]

    lock_provider-Returns :
        (stack : List ComponentRef) (s : ServiceRuntimeState) (l : Located) (contract : ContractKey)
        (request : List ℕ) (k : Lock)
        → CallsReturn (context (stack ++ l.0 ∷ []) l.0)
        → s.instances ≡ instances
        → Returns instances (lock_provider load m lock max context stack s l contract request k)
    unfolding lock_provider
    lock_provider-Returns stack s l contract request Lock.free r e =
        run_provider-Returns stack s l contract request r e
    lock_provider-Returns stack s l contract request Lock.would_block r e = record {
      kept = e;
      answer = _;
      given = refl;
    }
    lock_provider-Returns stack s l contract request Lock.poisoned r e = record {
      kept = e;
      answer = _;
      given = refl;
    }

    invoke-Returns :
        (stack : List ComponentRef) (s : ServiceRuntimeState) (l : Located) (contract : ContractKey)
        (request : List ℕ)
        → not_running stack (registered instances) ≤ fuel
        → any (same_ref l.0) (registered instances) ≡ true
        → s.instances ≡ instances
        → Returns instances (invoke_provider load m lock max context stack s l contract request)
    unfolding invoke_provider
    invoke-Returns stack s l contract request bound at e =
        elim (Bool-cases (is_running l.0 stack)) [
          | inl running ↦ rw running (record { kept = e; answer = _; given = refl })
          | inr idle ↦
              let fewer = not_running-push_lt l.0 stack (registered instances) at idle in
              rw idle (
                lock_provider-Returns stack s l contract request (lock l.0)
                  (ih (stack ++ l.0 ∷ []) l.0 (omega arith)) e)
        ]

    pub resolved-Returns :
        (stack : List ComponentRef) (s : ServiceRuntimeState) (request : List ℕ)
        (r : ServiceCallResult (ContractKey × Located))
        → not_running stack (registered instances) ≤ fuel
        → ((c : ContractKey) (l : Located)
            → r ≡ ok (c, l)
            → any (same_ref l.0) (registered instances) ≡ true)
        → s.instances ≡ instances
        → Returns instances (invoke_resolved load m lock max context stack request s r)
    unfolding invoke_resolved
    resolved-Returns stack s request (err x) bound at e = record {
      kept = e;
      answer = err x;
      given = refl;
    }
    resolved-Returns stack s request (ok (c, l)) bound at e =
        invoke-Returns stack s l c request bound (at c l refl) e

    pub call_with_stack-Returns :
        (stack : List ComponentRef) (caller : ComponentRef) (flag : Bool) (s : ServiceRuntimeState)
        (contract : ContractKey) (request : List ℕ)
        → not_running stack (registered instances) ≤ fuel
        → s.instances ≡ instances
        → Returns instances
            (call_with_stack load m lock max context stack caller flag s contract request)
    unfolding call_with_stack
    call_with_stack-Returns stack caller flag s contract request bound e =
        let key : RouteKey = record {
          caller = caller;
          contract = contract;
          allow_inactive_caller = flag;
        } in
        elim (Bool-cases (leb (length request) max)) [
          | inr large ↦ rw large (record { kept = e; answer = _; given = refl })
          | inl fits ↦ rw fits (
              resolved-Returns stack (resolve_provider m s key).0 request _ bound
                (λ c l h.
                  let (l', found, same) =
                    >>=-eq-ok (resolve_provider m s key).1 (λ located. ok (contract, located)) h in
                  let there : l' ≡ l = cc in
                  subst (λ i. any (same_ref l.0) (registered i) ≡ true) e
                    (resolve_provider-registered m s key l (found ∙ ap ok there)))
                (resolve_provider-kept m s key ∙ e))
        ]

    pub call_provider_with_stack-Returns :
        (stack : List ComponentRef) (caller : ComponentRef) (flag : Bool) (s : ServiceRuntimeState)
        (handle : ℕ) (request : List ℕ)
        → not_running stack (registered instances) ≤ fuel
        → s.instances ≡ instances
        → Returns instances
            (call_provider_with_stack load m lock max context stack caller flag s handle request)
    unfolding call_provider_with_stack
    call_provider_with_stack-Returns stack caller flag s handle request bound e =
        elim (Bool-cases (leb (length request) max)) [
          | inr large ↦ rw large (record { kept = e; answer = _; given = refl })
          | inl fits ↦ rw fits (
              resolved-Returns stack s request _ bound
                (λ c l h.
                  subst (λ i. any (same_ref l.0) (registered i) ≡ true) e
                    (handle-registered m s caller handle flag c l h))
                e)
        ]

  pub context_calls-return :
      (fuel : ℕ) (stack : List ComponentRef) (owner : ComponentRef)
      → not_running stack (registered instances) < fuel
      → CallsReturn (context_calls load m lock max fuel stack owner)
  unfolding context_calls
  context_calls-return zero stack owner h = absurd (omega arith)
  context_calls-return (suc fuel) stack owner h = record {
    called = λ s contract request e.
        call_with_stack-Returns fuel (context_calls load m lock max fuel)
          (context_calls-return fuel) stack owner true s contract request (omega arith) e;
    handled = λ s handle request e.
        call_provider_with_stack-Returns fuel (context_calls load m lock max fuel)
          (context_calls-return fuel) stack owner true s handle request (omega arith) e;
  }
