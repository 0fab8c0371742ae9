-- ===== src/Models/Router/Fallback.antt =====
-- The nested loops of the router against one flat list of attempts.
use forge_ai_autonomous_soft.Common.{
  ℕ, zero, suc, ◌+◌, Bool, true, false, Option, none, some, List, [], ◌∷◌, ◌++◌, Text, text_eq,
  lookup, ltb, not, if◌then◌else◌, length, ◌≡◌, refl, ap, ◌∙◌, arith, Bool-cases, inl, inr,
}
use forge_ai_autonomous_soft.Common.Outcome.{Outcome, returned, raised}
use forge_ai_autonomous_soft.Core.{Float}
use forge_ai_autonomous_soft.Models.Profile.{
  ModelProfile, CompletionResponse, ProviderResult, ModelRouterError, model_not_found,
  all_models_exhausted,
}
use forge_ai_autonomous_soft.Models.Router.{
  RouterWorld, RouterLog, UsageEntry, Completion, Attempted, call_with_timeout, policy, slept,
  attempt_loop, enough_fuel, response_of, entry_of, unless_raised, finish, Rest, after_attempts,
  unless_won, unless_exhausted, with_provider, with_profile, try_models, complete,
}

-- An entry of the flat list: one attempt, or the end at a key that is not registered.
pub data Slot : Type 0 where
  attempt : (model_key : Text) (profile : ModelProfile) (provider : ℕ) → Slot
  stop : (model_key : Text) → Slot

abbrev pub replicate : ℕ → Slot → List Slot
replicate zero slot = []
replicate (suc n) slot = slot ∷ replicate n slot

pub length-replicate : (n : ℕ) (slot : Slot) → length (replicate n slot) ≡ n
length-replicate zero slot = refl
length-replicate (suc n) slot = ap suc (length-replicate n slot)

-- What a run shows: its outcome, and the usage that it recorded.
abbrev pub Shown : Type 0
Shown = Outcome ModelRouterError CompletionResponse × List UsageEntry

abbrev pub shown : Outcome ModelRouterError CompletionResponse × RouterLog → Shown
shown (o, log) = (o, log.recorded)

module _ (w : RouterWorld) (c : Completion) where
  -- A success: with a recorder the usage is recorded, which may fail.
  abbrev pub succeeded : Bool → Text → ModelProfile → ProviderResult → ℕ → List UsageEntry → Shown
  succeeded false model_key profile result n recorded =
      (returned (response_of w c model_key profile result n), recorded)
  succeeded true model_key profile result n recorded = (
    unless_raised w c (response_of w c model_key profile result n)
        (w.recorder_error (entry_of w c model_key profile result)),
    recorded ++ entry_of w c model_key profile result ∷ [],
  )

  abbrev pub slots_with : Text → ModelProfile → Option ℕ → List Slot → List Slot
  slots_with model_key profile none slots = slots
  slots_with model_key profile (some provider) slots =
      replicate (enough_fuel w c) (attempt model_key profile provider) ++ slots

  abbrev pub slots_of : Text → Option ModelProfile → List Slot → List Slot
  slots_of model_key none slots = stop model_key ∷ []
  slots_of model_key (some profile) slots =
      if not profile.is_active
      then slots
      else slots_with model_key profile (lookup profile.provider c.providers) slots

  -- All attempts that may be made, in order: for each model that is active and has a provider, one
  -- more than the policy has retries.
  abbrev pub schedule : List Text → List Slot
  schedule [] = []
  schedule (model_key ∷ model_keys) =
      slots_of model_key (lookup model_key c.registry) (schedule model_keys)

  abbrev pub taken :
      Text → ModelProfile → ℕ → List UsageEntry → Shown → Option ProviderResult → Shown
  taken model_key profile n recorded failed none = failed
  taken model_key profile n recorded failed (some result) =
      succeeded c.has_recorder model_key profile result (suc n) recorded

  -- The specification: the first attempt of the list that succeeds.
  abbrev pub first_success : List Text → List Slot → ℕ → List UsageEntry → Shown
  first_success all_keys [] n recorded = (raised (all_models_exhausted all_keys), recorded)
  first_success all_keys (stop model_key ∷ slots) n recorded =
      (raised (model_not_found model_key), recorded)
  first_success all_keys (attempt model_key profile provider ∷ slots) n recorded =
      taken model_key profile n recorded (first_success all_keys slots (suc n) recorded)
        (call_with_timeout w c n provider profile)

  shown-finish :
      (model_key : Text) (profile : ModelProfile) (result : ProviderResult) (n : ℕ)
      (log : RouterLog)
      → shown (finish w c model_key profile result n log)
        ≡ succeeded c.has_recorder model_key profile result n log.recorded
  unfolding finish
  shown-finish model_key profile result n log = elim (Bool-cases c.has_recorder) [
    | inl h ↦ rw h refl
    | inr h ↦ rw h refl
  ]

  shown_pass :
      (model_key : Text) (profile : ModelProfile) (rest : Rest w c) (n : ℕ) (log : RouterLog)
      (failed : Attempted × RouterLog) (specified : Shown)
      → shown (after_attempts w c model_key profile rest failed) ≡ specified
      → (o : Option ProviderResult)
      → shown (after_attempts w c model_key profile rest (unless_won n log failed o))
        ≡ taken model_key profile n log.recorded specified o
  shown_pass model_key profile rest n log failed specified h none = h
  shown_pass model_key profile rest n log failed specified h (some result) =
      shown-finish model_key profile result (suc n) log

  -- What the loop does after a failure that is not the last.
  abbrev again_of : ℕ → ModelProfile → ℕ → ℕ → Float → RouterLog → ℕ → Attempted × RouterLog
  again_of provider profile tried n delay log fuel =
      attempt_loop w c fuel provider profile (suc tried) (suc n)
        (w.float_mul delay (policy w c).backoff_multiplier)
        (slept w (w.float_min delay (policy w c).max_backoff_seconds) log)

  last_one : (tried m : ℕ) → tried + 0 ≡ m → ltb m (suc tried) ≡ true
  last_one tried m e = ground (arith, e)

  not_last : (tried f m : ℕ) → tried + suc f ≡ m → ltb m (suc tried) ≡ false
  not_last tried f m e = ground (arith, e)

  -- The attempts at one model are the model's part of the list.
  shown_attempts :
      (all_keys : List Text) (model_key : Text) (profile : ModelProfile) (provider : ℕ)
      (rest : Rest w c) (slots : List Slot)
      → ((n : ℕ) (log : RouterLog)
          → shown (rest n log) ≡ first_success all_keys slots n log.recorded)
      → (f tried n : ℕ) (delay : Float) (log : RouterLog) → tried + f ≡ (policy w c).max_attempts
      → shown (
          after_attempts w c model_key profile rest
            (attempt_loop w c (suc f) provider profile tried n delay log))
        ≡ first_success all_keys
            (replicate (suc f) (attempt model_key profile provider) ++ slots)
            n
            log.recorded
  unfolding attempt_loop
  shown_attempts all_keys model_key profile provider rest slots rest_shown zero tried n delay log
        e =
      shown_pass model_key profile rest n log
        (unless_exhausted n log (again_of provider profile tried n delay log 0)
          (ltb (policy w c).max_attempts (suc tried)))
        (first_success all_keys slots (suc n) log.recorded)
        (ap
            (λ b. shown (
              after_attempts w c model_key profile rest
                (unless_exhausted n log (again_of provider profile tried n delay log 0) b)))
            (last_one tried (policy w c).max_attempts e)
          ∙ rest_shown (suc n) log)
        (call_with_timeout w c n provider profile)
  shown_attempts all_keys model_key profile provider rest slots rest_shown (suc f) tried n delay log
        e =
      shown_pass model_key profile rest n log
        (unless_exhausted n log (again_of provider profile tried n delay log (suc f))
          (ltb (policy w c).max_attempts (suc tried)))
        (first_success all_keys (replicate (suc f) (attempt model_key profile provider) ++ slots)
          (suc n) log.recorded)
        (ap
            (λ b. shown (
              after_attempts w c model_key profile rest
                (unless_exhausted n log (again_of provider profile tried n delay log (suc f)) b)))
            (not_last tried f (policy w c).max_attempts e)
          ∙ shown_attempts all_keys model_key profile provider rest slots rest_shown f (suc tried)
              (suc n) (w.float_mul delay (policy w c).backoff_multiplier)
              (slept w (w.float_min delay (policy w c).max_backoff_seconds) log) (omega (arith, e)))
        (call_with_timeout w c n provider profile)

  shown_profile :
      (all_keys : List Text) (model_key : Text) (rest : Rest w c) (slots : List Slot)
      → ((n : ℕ) (log : RouterLog)
          → shown (rest n log) ≡ first_success all_keys slots n log.recorded)
      → (o : Option ModelProfile) (n : ℕ) (log : RouterLog)
      → shown (with_profile w c model_key rest o n log)
        ≡ first_success all_keys (slots_of model_key o slots) n log.recorded
  shown_profile all_keys model_key rest slots rest_shown none n log = refl
  shown_profile all_keys model_key rest slots rest_shown (some profile) n log =
      choose profile.is_active
    where
      go :
          (p : Option ℕ)
          → shown (with_provider w c model_key profile rest p n log)
            ≡ first_success all_keys (slots_with model_key profile p slots) n log.recorded
      go none = rest_shown n log
      go (some provider) =
          shown_attempts all_keys model_key profile provider rest slots rest_shown
            (policy w c).max_attempts 0 n (policy w c).backoff_seconds log (omega arith)

      choose :
          (b : Bool)
          → shown (
              if not b
              then rest n log
              else with_provider w c model_key profile rest
                  (lookup profile.provider c.providers)
                  n
                  log)
            ≡ first_success all_keys
                (if not b
                  then slots
                  else slots_with model_key profile (lookup profile.provider c.providers) slots)
                n
                log.recorded
      choose true = go (lookup profile.provider c.providers)
      choose false = rest_shown n log

  refines :
      (all_keys model_keys : List Text) (n : ℕ) (log : RouterLog)
      → shown (try_models w c all_keys model_keys n log)
        ≡ first_success all_keys (schedule model_keys) n log.recorded
  unfolding try_models
  refines all_keys [] n log = refl
  refines all_keys (model_key ∷ model_keys) n log =
      shown_profile all_keys model_key (try_models w c all_keys model_keys) (schedule model_keys)
        (refines all_keys model_keys) (lookup model_key c.registry) n log

  -- The router's loops over models and attempts do what the first successful attempt of the flat
  -- list of attempts does, with the same response, the same error and the same recorded usage.
  pub complete-first_success :
      (model_keys : List Text) (log : RouterLog)
      → shown (complete w c model_keys log)
        ≡ first_success model_keys (schedule model_keys) 0 log.recorded
  unfolding complete
  complete-first_success [] log = refl
  complete-first_success (model_key ∷ model_keys) log =
      refines (model_key ∷ model_keys) (model_key ∷ model_keys) 0 log
