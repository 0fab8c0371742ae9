-- ===== src/Models/Router/Billing.antt =====
-- What a completion costs: the number of attempts, and the usage that is recorded.
use forge_ai_autonomous_soft.Common.{
  ℕ, suc, ◌+◌, ◌*◌, ◌≤◌, Bool, true, false, Option, none, some, List, [], ◌∷◌, ◌++◌, Text, text_eq,
  lookup, not, if◌then◌else◌, length, length-append, ◌≡◌, ◌≢◌, refl, ap, sym, subst, arith,
}
use forge_ai_autonomous_soft.Common.Outcome.{returned, raised}
use forge_ai_autonomous_soft.Models.Profile.{
  recorder_failed, out_of_fuel, ModelProfile, CompletionResponse, ProviderResult, ModelRouterError,
}
use forge_ai_autonomous_soft.Models.Router.{
  RouterWorld, RouterLog, UsageEntry, Completion, call_with_timeout, policy, enough_fuel,
  response_of, entry_of, unless_raised, complete,
}
use forge_ai_autonomous_soft.Models.Router.Fallback.{
  Slot, attempt, stop, replicate, length-replicate, Shown, shown, succeeded, slots_with, slots_of,
  schedule, taken, first_success, complete-first_success,
}

module _ (w : RouterWorld) (c : Completion) where
  -- What a run with a response has recorded: its usage, once, if there is a recorder. A run that
  -- raises has recorded nothing, or its recorder refused the one entry that it was given.
  pub data IsBilled (recorded : List UsageEntry) : Shown → Type 0 where
    no_charge : (e : ModelRouterError) → IsBilled recorded (raised e, recorded)
    no_recorder :
        (response : CompletionResponse)
        → c.has_recorder ≡ false
        → IsBilled recorded (returned response, recorded)
    charged :
        (response : CompletionResponse)
        → c.has_recorder ≡ true
        → IsBilled recorded (
          returned response,
          recorded
              ++ record {
                model_key = response.model_key;
                usage = response.usage;
                attribution = c.attribution;
              }
                ∷ [],
        )
    refused :
        (entry : UsageEntry) (text : Text)
        → w.recorder_error entry ≡ some text
        → IsBilled recorded (raised (recorder_failed text), recorded ++ entry ∷ [])

  succeeded-IsBilled :
      (b : Bool) (model_key : Text) (profile : ModelProfile) (result : ProviderResult) (n : ℕ)
      (recorded : List UsageEntry)
      → c.has_recorder ≡ b
      → IsBilled recorded (succeeded w c b model_key profile result n recorded)
  succeeded-IsBilled false model_key profile result n recorded h = no_recorder _ h
  succeeded-IsBilled true model_key profile result n recorded h =
      go (w.recorder_error (entry_of w c model_key profile result)) refl
    where
      go :
          (o : Option Text)
          → w.recorder_error (entry_of w c model_key profile result) ≡ o
          → IsBilled recorded (
            unless_raised w c (response_of w c model_key profile result n) o,
            recorded ++ entry_of w c model_key profile result ∷ [],
          )
      go none k = charged (response_of w c model_key profile result n) h
      go (some e) k = refused (entry_of w c model_key profile result) e k

  taken-IsBilled :
      (model_key : Text) (profile : ModelProfile) (n : ℕ) (recorded : List UsageEntry)
      (failed : Shown)
      → IsBilled recorded failed
      → (o : Option ProviderResult)
      → IsBilled recorded (taken w c model_key profile n recorded failed o)
  taken-IsBilled model_key profile n recorded failed h none = h
  taken-IsBilled model_key profile n recorded failed h (some result) =
      succeeded-IsBilled c.has_recorder model_key profile result (suc n) recorded refl

  first_success-IsBilled :
      (all_keys : List Text) (slots : List Slot) (n : ℕ) (recorded : List UsageEntry)
      → IsBilled recorded (first_success w c all_keys slots n recorded)
  first_success-IsBilled all_keys [] n recorded = no_charge _
  first_success-IsBilled all_keys (stop model_key ∷ slots) n recorded = no_charge _
  first_success-IsBilled all_keys (attempt model_key profile provider ∷ slots) n recorded =
      taken-IsBilled model_key profile n recorded
        (first_success w c all_keys slots (suc n) recorded)
        (first_success-IsBilled all_keys slots (suc n) recorded)
        (call_with_timeout w c n provider profile)

  -- A completion that returns a response has recorded exactly its usage, for its model and to the
  -- caller's attribution, if there is a recorder, and nothing otherwise; one that raises has recorded
  -- nothing, unless what it raises is the error of the recorder at the one entry.
  pub complete-IsBilled :
      (model_keys : List Text) (log : RouterLog)
      → IsBilled log.recorded (shown (complete w c model_keys log))
  complete-IsBilled model_keys log =
      subst (IsBilled log.recorded) (sym (complete-first_success w c model_keys log))
        (first_success-IsBilled model_keys (schedule w c model_keys) 0 log.recorded)

  length-slots_of-le :
      (model_key : Text) (slots : List Slot) (o : Option ModelProfile)
      → length (slots_of w c model_key o slots) ≤ suc (policy w c).max_attempts + length slots
  length-slots_of-le model_key slots none = omega arith
  length-slots_of-le model_key slots (some profile) =
      choose profile.is_active (lookup profile.provider c.providers)
    where
      choose :
          (b : Bool) (p : Option ℕ)
          → length (if not b then slots else slots_with w c model_key profile p slots)
            ≤ suc (policy w c).max_attempts + length slots
      choose false p = omega arith
      choose true none = omega arith
      choose true (some provider) = omega (
        arith,
        length-append (replicate (enough_fuel w c) (attempt model_key profile provider)) slots,
        length-replicate (enough_fuel w c) (attempt model_key profile provider),
      )

  length-schedule-le :
      (model_keys : List Text)
      → length (schedule w c model_keys) ≤ length model_keys * suc (policy w c).max_attempts
  length-schedule-le [] = omega arith
  length-schedule-le (model_key ∷ model_keys) = omega (
    arith,
    length-schedule-le model_keys,
    length-slots_of-le model_key (schedule w c model_keys) (lookup model_key c.registry),
  )

  abbrev pub attempts_of : Shown → ℕ
  attempts_of (returned response, recorded) = response.attempts
  attempts_of (raised e, recorded) = 0

  attempts-taken-le :
      (model_key : Text) (profile : ModelProfile) (n bound : ℕ) (recorded : List UsageEntry)
      (failed : Shown)
      → attempts_of failed ≤ suc n + bound
      → (o : Option ProviderResult)
      → attempts_of (taken w c model_key profile n recorded failed o) ≤ suc n + bound
  attempts-taken-le model_key profile n bound recorded failed h none = h
  attempts-taken-le model_key profile n bound recorded failed h (some result) = go c.has_recorder
    where
      asked :
          (o : Option Text)
          → attempts_of (
            unless_raised w c (response_of w c model_key profile result (suc n)) o,
            recorded ++ entry_of w c model_key profile result ∷ [],
          )
            ≤ suc n + bound
      asked none = omega arith
      asked (some e) = omega arith

      go :
          (b : Bool)
          → attempts_of (succeeded w c b model_key profile result (suc n) recorded) ≤ suc n + bound
      go false = omega arith
      go true = asked (w.recorder_error (entry_of w c model_key profile result))

  attempts-first_success-le :
      (all_keys : List Text) (slots : List Slot) (n : ℕ) (recorded : List UsageEntry)
      → attempts_of (first_success w c all_keys slots n recorded) ≤ n + length slots
  attempts-first_success-le all_keys [] n recorded = omega arith
  attempts-first_success-le all_keys (stop model_key ∷ slots) n recorded = omega arith
  attempts-first_success-le all_keys (attempt model_key profile provider ∷ slots) n recorded =
      subst
        (λ m.
          attempts_of
            (first_success w c all_keys (attempt model_key profile provider ∷ slots) n recorded)
          ≤ m)
        (omega arith)
        (attempts-taken-le model_key profile n (length slots) recorded
          (first_success w c all_keys slots (suc n) recorded)
          (attempts-first_success-le all_keys slots (suc n) recorded)
          (call_with_timeout w c n provider profile))

  -- The attempts that a response reports are at most, for each candidate model, one more than the
  -- policy has retries.
  pub attempts-complete-le :
      (model_keys : List Text) (log : RouterLog)
      → attempts_of (shown (complete w c model_keys log))
        ≤ length model_keys * suc (policy w c).max_attempts
  attempts-complete-le model_keys log = omega (
    arith,
    ap attempts_of (complete-first_success w c model_keys log),
    attempts-first_success-le model_keys (schedule w c model_keys) 0 log.recorded,
    length-schedule-le model_keys,
  )

  -- The outcome of a run that has not run out of fuel.
  abbrev pub IsFinished : Shown → Type 0
  IsFinished (o, recorded) = o ≢ raised out_of_fuel

  taken-IsFinished :
      (model_key : Text) (profile : ModelProfile) (n : ℕ) (recorded : List UsageEntry)
      (failed : Shown)
      → IsFinished failed
      → (o : Option ProviderResult) → IsFinished (taken w c model_key profile n recorded failed o)
  taken-IsFinished model_key profile n recorded failed h none = h
  taken-IsFinished model_key profile n recorded failed h (some result) = go c.has_recorder
    where
      asked :
          (o : Option Text)
          → unless_raised w c (response_of w c model_key profile result (suc n)) o
            ≢ raised out_of_fuel
      asked none e = absurd (cc)
      asked (some text) e = absurd (cc)

      go : (b : Bool) → IsFinished (succeeded w c b model_key profile result (suc n) recorded)
      go false = λ e. absurd (cc)
      go true = asked (w.recorder_error (entry_of w c model_key profile result))

  first_success-IsFinished :
      (all_keys : List Text) (slots : List Slot) (n : ℕ) (recorded : List UsageEntry)
      → IsFinished (first_success w c all_keys slots n recorded)
  first_success-IsFinished all_keys [] n recorded = λ e. absurd (cc)
  first_success-IsFinished all_keys (stop model_key ∷ slots) n recorded = λ e. absurd (cc)
  first_success-IsFinished all_keys (attempt model_key profile provider ∷ slots) n recorded =
      taken-IsFinished model_key profile n recorded
        (first_success w c all_keys slots (suc n) recorded)
        (first_success-IsFinished all_keys slots (suc n) recorded)
        (call_with_timeout w c n provider profile)

  -- The fuel of the loop over the attempts is enough: a completion never ends for want of it.
  pub complete-IsFinished :
      (model_keys : List Text) (log : RouterLog) → IsFinished (shown (complete w c model_keys log))
  complete-IsFinished model_keys log =
      subst IsFinished (sym (complete-first_success w c model_keys log))
        (first_success-IsFinished model_keys (schedule w c model_keys) 0 log.recorded)
