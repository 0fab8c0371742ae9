-- ===== src/Models/Persistence/Upsert.antt =====
-- What a saved profile is found as.
use forge_ai_autonomous_soft.Common.Catalog.{scalar_one_or_none}
use forge_ai_autonomous_soft.Common.{
  ℕ, Bool, true, Option, none, some, List, [], ◌∷◌, ◌++◌, map, Text, text_eq, if◌then◌else◌, ◌≡◌,
  ◌≢◌, refl, ap, sym, ◌∙◌, subst, arith,
}
use forge_ai_autonomous_soft.Common.Outcome.{
  Outcome, returned, raised, ensure, ◌>>=◌, returned-bind,
}
use forge_ai_autonomous_soft.Models.Profile.{
  Decimal, ModelProfile, ModelTier, fast_cheap, balanced, high_capability,
}
use forge_ai_autonomous_soft.Models.Persistence.{
  multiple_results, ModelProfileRecord, PersistenceError, tier_value, tier_of, with_key, written,
  new_record, write_where, saved, save, data_error, cost_column, fits_columns, flushed, profile_ok,
  profile_from, to_domain, to_domain_or_none, find_profile,
}

tier_of_value : (tier : ModelTier) → tier_of (tier_value tier) ≡ some tier
tier_of_value fast_cheap = refl
tier_of_value balanced = refl
tier_of_value high_capability = refl

with_key-append :
    (key : Text) (rows more : List ModelProfileRecord)
    → with_key key (rows ++ more) ≡ with_key key rows ++ with_key key more
with_key-append key [] more = refl
with_key-append key (r ∷ rows) more = ground (arith, with_key-append key rows more)

with_key-write_where :
    (profile : ModelProfile) (rows : List ModelProfileRecord)
    → with_key profile.key (write_where profile rows)
      ≡ map (written profile) (with_key profile.key rows)
with_key-write_where profile [] = refl
with_key-write_where profile (r ∷ rows) = ground (arith, with_key-write_where profile rows)

with_key-write_where_ne :
    (key : Text) (profile : ModelProfile) (rows : List ModelProfileRecord)
    → key ≢ profile.key
    → with_key key (write_where profile rows) ≡ with_key key rows
with_key-write_where_ne key profile [] h = refl
with_key-write_where_ne key profile (r ∷ rows) h = ground (
  arith,
  h,
  text_eq.beq_iff r.key key,
  text_eq.beq_iff r.key profile.key,
  with_key-write_where_ne key profile rows h,
)

abbrev list_of : Option ModelProfileRecord → List ModelProfileRecord
list_of none = []
list_of (some r) = r ∷ []

one_or_none :
    (rows : List ModelProfileRecord) (o : Option ModelProfileRecord)
    → scalar_one_or_none multiple_results rows ≡ returned o
    → rows ≡ list_of o
one_or_none [] none h = refl
one_or_none [] (some s) h = absurd (cc)
one_or_none (r ∷ []) none h = absurd (cc)
one_or_none (r ∷ []) (some s) h = cc
one_or_none (r ∷ s ∷ rows) o h = absurd (cc)

-- A row that a selection by key finds has this key.
key-with_key :
    (key : Text) (rows found : List ModelProfileRecord) (r : ModelProfileRecord)
    → with_key key rows ≡ r ∷ found
    → r.key ≡ key
key-with_key key [] found r h = absurd (cc)
key-with_key key (s ∷ rows) found r h =
    ground (arith, h, text_eq.beq_iff s.key key, key-with_key key rows found r)

pub cost_column_lem :
    (numeric : Decimal → Option Decimal) (cost kept : Decimal)
    → cost_column numeric cost ≡ returned kept
    → numeric cost ≡ some kept
cost_column_lem numeric cost kept h = ground arith

-- The costs that a flush keeps.
flushed_lem :
    (numeric : Decimal → Option Decimal) (profile kept : ModelProfile)
    → flushed numeric profile ≡ returned kept
    → (input : Decimal) × (output : Decimal) × (numeric profile.cost_per_1m_input ≡ some input)
      × (numeric profile.cost_per_1m_output ≡ some output)
      × (record profile { cost_per_1m_input = input; cost_per_1m_output = output } ≡ kept)
unfolding flushed
flushed_lem numeric profile kept h =
    let (_, fits, h1) = returned-bind (ensure (fits_columns profile) data_error) _ _ h in
    let (input, i, h2) = returned-bind (cost_column numeric profile.cost_per_1m_input) _ _ h1 in
    let (output, o, h3) = returned-bind (cost_column numeric profile.cost_per_1m_output) _ _ h2 in
    (
      input,
      output,
      cost_column_lem numeric profile.cost_per_1m_input input i,
      cost_column_lem numeric profile.cost_per_1m_output output o,
      cc,
    )

module _ (nonnegative : Decimal → Bool) where
  abbrev some_returned :
      Outcome PersistenceError ModelProfile → Outcome PersistenceError (Option ModelProfile)
  some_returned p = p >>= λ q. returned (some q)

  to_domain-new_record :
      (id : ℕ) (profile : ModelProfile)
      → profile_ok nonnegative profile ≡ true
      → to_domain nonnegative (new_record id profile) ≡ returned profile
  unfolding to_domain
  to_domain-new_record id profile ok =
      ap (profile_from nonnegative (new_record id profile)) (tier_of_value profile.tier)
      ∙ ap (λ b. if b then returned profile else raised PersistenceError.invalid_row) ok

  find-one :
      (key : Text) (rows : List ModelProfileRecord) (r : ModelProfileRecord)
      (profile : ModelProfile)
      → with_key key rows ≡ r ∷ []
      → to_domain nonnegative r ≡ returned profile
      → find_profile nonnegative key rows ≡ returned (some profile)
  unfolding find_profile
  find-one key rows r profile h k =
      ap (λ found. scalar_one_or_none multiple_results found >>= to_domain_or_none nonnegative) h
      ∙ ap some_returned k

  find-saved :
      (id : ℕ) (profile : ModelProfile) (rows : List ModelProfileRecord)
      (found : Option ModelProfileRecord)
      → scalar_one_or_none multiple_results (with_key profile.key rows) ≡ returned found
      → profile_ok nonnegative profile ≡ true
      → find_profile nonnegative profile.key (saved id profile rows found) ≡ returned (some profile)
  find-saved id profile rows none h ok =
      find-one profile.key (rows ++ new_record id profile ∷ []) (new_record id profile) profile
        (with_key-append profile.key rows (new_record id profile ∷ [])
          ∙ ground (
            arith,
            one_or_none (with_key profile.key rows) none h,
            (text_eq.beq_iff profile.key profile.key).1 refl,
          ))
        (to_domain-new_record id profile ok)
  find-saved id profile rows (some r) h ok =
      let only = one_or_none (with_key profile.key rows) (some r) h in
      find-one profile.key (write_where profile rows) (written profile r) profile
        (with_key-write_where profile rows ∙ ap (map (written profile)) only)
        (subst
          (λ k. to_domain nonnegative (written profile (record r { key = k })) ≡ returned profile)
          (sym (key-with_key profile.key rows [] r only)) (to_domain-new_record r.id profile ok))

  kept-ok :
      (profile : ModelProfile) (input output : Decimal)
      → (nonnegative profile.cost_per_1m_input ≡ true → nonnegative input ≡ true)
      → (nonnegative profile.cost_per_1m_output ≡ true → nonnegative output ≡ true)
      → profile_ok nonnegative profile ≡ true
      → profile_ok nonnegative
          (record profile { cost_per_1m_input = input; cost_per_1m_output = output })
        ≡ true
  kept-ok profile input output h k ok = ground (arith, h, k, ok)

  with_key-saved_ne :
      (key : Text) (id : ℕ) (profile : ModelProfile) (rows : List ModelProfileRecord)
      (found : Option ModelProfileRecord)
      → key ≢ profile.key
      → with_key key (saved id profile rows found) ≡ with_key key rows
  with_key-saved_ne key id profile [] none h = ground (arith, h, text_eq.beq_iff profile.key key)
  with_key-saved_ne key id profile (r ∷ rows) none h =
      ground (arith, with_key-saved_ne key id profile rows none h)
  with_key-saved_ne key id profile rows (some r) h = with_key-write_where_ne key profile rows h

  find-saved_ne :
      (key : Text) (id : ℕ) (profile : ModelProfile) (rows : List ModelProfileRecord)
      (found : Option ModelProfileRecord)
      → key ≢ profile.key
      → find_profile nonnegative key (saved id profile rows found)
        ≡ find_profile nonnegative key rows
  unfolding find_profile
  find-saved_ne key id profile rows found ne =
      ap (λ found'. scalar_one_or_none multiple_results found' >>= to_domain_or_none nonnegative)
        (with_key-saved_ne key id profile rows found ne)

  -- A valid profile that `save` saves, as a new row or over the row of its key, is what `get` finds
  -- at its key then, with its costs as the NUMERIC columns keep them; and what `get` finds at another
  -- key is what it found before. A NUMERIC column is taken to keep the sign of a cost.
  pub find_profile-save :
      (numeric : Decimal → Option Decimal) (id : ℕ) (profile : ModelProfile)
      (rows rows' : List ModelProfileRecord) (other : Text)
      → ((cost kept : Decimal)
          → numeric cost ≡ some kept
          → nonnegative cost ≡ true
          → nonnegative kept ≡ true)
      → profile_ok nonnegative profile ≡ true
      → save numeric id profile rows ≡ returned rows'
      → other ≢ profile.key
      → (input : Decimal) × (output : Decimal) × (numeric profile.cost_per_1m_input ≡ some input)
        × (numeric profile.cost_per_1m_output ≡ some output)
        × (find_profile nonnegative profile.key rows'
            ≡ returned
                (some (record profile { cost_per_1m_input = input; cost_per_1m_output = output })))
        × (find_profile nonnegative other rows' ≡ find_profile nonnegative other rows)
  unfolding save
  find_profile-save numeric id profile rows rows' other sign ok h ne =
      let (found, one, h1) =
        returned-bind (scalar_one_or_none multiple_results (with_key profile.key rows)) _ _ h in
      let (kept, flushes, h2) = returned-bind (flushed numeric profile) _ _ h1 in
      let (input, output, kept_input, kept_output, same) =
        flushed_lem numeric profile kept flushes in
      let p = record profile { cost_per_1m_input = input; cost_per_1m_output = output } in
      let e : saved id p rows found ≡ rows' = cc in
      (
        input,
        output,
        kept_input,
        kept_output,
        subst (λ after. find_profile nonnegative profile.key after ≡ returned (some p)) e
            (find-saved id p rows found one (
              kept-ok profile input output (sign _ input kept_input) (sign _ output kept_output)
                ok)),
        subst (λ after. find_profile nonnegative other after ≡ find_profile nonnegative other rows)
            e (find-saved_ne other id p rows found ne),
      )
