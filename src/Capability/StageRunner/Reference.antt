-- ===== src/Capability/StageRunner/Reference.antt =====
-- `parse_capability_reference` of stage_runner.py.
use forge_ai_autonomous_soft.Common.{
  is_empty, ℕ, Bool, true, false, not, ◌||◌, Option, none, some, [], ◌∷◌, ◌++◌, Text, text_eq, eqb,
  eqb_iff, nat_eq, if◌then◌else◌, ◌≡◌, ◌↔◌, refl, ap, ◌∙◌, arith,
}
use forge_ai_autonomous_soft.Common.Outcome.{Outcome, returned, raised}

-- `InvalidCapabilityReferenceError`
pub data InvalidCapabilityReference : Type 0 where
  invalid_capability_reference : (capability_ref : Option Text) → InvalidCapabilityReference

abbrev pub at_sign : ℕ
at_sign = 64

-- `capability.partition("@")`: what is before the first mark, and what is after it.
abbrev pub partition : Text → Text × Text
partition [] = ([], [])
partition (c ∷ t) =
    let rest = partition t in if eqb c at_sign then ([], t) else (c ∷ rest.0, rest.1)

-- `"@" in capability`
abbrev has_mark : Text → Bool
has_mark [] = false
has_mark (c ∷ t) = eqb c at_sign || has_mark t

abbrev parsed : Text → Outcome InvalidCapabilityReference (Text × Text)
parsed capability =
    let parts = partition capability in
    if is_empty capability || not (has_mark capability)
    then raised (invalid_capability_reference (some capability))
    else if is_empty parts.0 || is_empty parts.1
    then raised (invalid_capability_reference (some capability))
    else returned parts

unfoldable pub parse_capability_reference :
    Option Text → Outcome InvalidCapabilityReference (Text × Text)
parse_capability_reference none = raised (invalid_capability_reference none)
parse_capability_reference (some capability) = parsed capability

-- The shape of a reference: an id with no mark in it, the mark and a version, neither of them empty.
pub record IsReference (capability : Option Text) (capability_id version : Text) : Type 0 where
  pub is_joined : capability ≡ some (capability_id ++ at_sign ∷ version)
  pub no_mark : has_mark capability_id ≡ false
  pub has_id : is_empty capability_id ≡ false
  pub has_version : is_empty version ≡ false

-- The parts of a text with a mark put the text together again, and the first has no mark.
join-partition : (t : Text) → has_mark t ≡ true → (partition t).0 ++ at_sign ∷ (partition t).1 ≡ t
join-partition [] h = absurd (cc)
join-partition (c ∷ t) h = ground (arith, h, join-partition t, eqb_iff c at_sign)

has_mark-partition : (t : Text) → has_mark (partition t).0 ≡ false
has_mark-partition [] = refl
has_mark-partition (c ∷ t) = ground (arith, has_mark-partition t)

partition-join : (i v : Text) → has_mark i ≡ false → partition (i ++ at_sign ∷ v) ≡ (i, v)
partition-join [] v h = refl
partition-join (c ∷ i) v h = ground (arith, h, partition-join i v)

has_mark-join : (i v : Text) → has_mark (i ++ at_sign ∷ v) ≡ true
has_mark-join [] v = refl
has_mark-join (c ∷ i) v = ground (arith, has_mark-join i v)

parsed-join :
    (i v : Text)
    → has_mark i ≡ false
    → is_empty i ≡ false
    → is_empty v ≡ false
    → parsed (i ++ at_sign ∷ v) ≡ returned (i, v)
parsed-join [] v h k l = absurd (cc)
parsed-join (c ∷ i) v h k l = ground (arith, has_mark-join (c ∷ i) v, partition-join (c ∷ i) v h, l)

parsed-facts :
    (t i v : Text)
    → parsed t ≡ returned (i, v)
    → (has_mark t ≡ true) × (is_empty i ≡ false) × (is_empty v ≡ false) × (partition t ≡ (i, v))
parsed-facts t i v h = go (is_empty t) (has_mark t) (partition t) h
  where
    go :
        (b m : Bool) (parts : Text × Text)
        → (if b || not m
            then raised (invalid_capability_reference (some t))
            else if is_empty parts.0 || is_empty parts.1
            then raised (invalid_capability_reference (some t))
            else returned parts)
          ≡ returned (i, v)
        → (m ≡ true) × (is_empty i ≡ false) × (is_empty v ≡ false) × (parts ≡ (i, v))
    go true m parts k = absurd (cc)
    go false false parts k = absurd (cc)
    go false true ([], w) k = absurd (cc)
    go false true (c ∷ j, []) k = absurd (cc)
    go false true (c ∷ j, d ∷ w) k = (refl, cc, cc, cc)

-- A reference parses to an id and a version exactly if it is the id, the mark and the version, with
-- no mark in the id and neither of the two empty: the first mark counts.
pub parse_capability_reference_iff :
    (capability : Option Text) (capability_id version : Text)
    → (parse_capability_reference capability ≡ returned (capability_id, version))
      ↔ IsReference capability capability_id version
unfolding parse_capability_reference
parse_capability_reference_iff none capability_id version = (
  λ h. absurd (cc),
  λ (r : IsReference none capability_id version). absurd (ground (arith, r.is_joined)),
)
parse_capability_reference_iff (some t) capability_id version = (to, from)
  where
    to : parsed t ≡ returned (capability_id, version) → IsReference (some t) capability_id version
    to h =
        let facts = parsed-facts t capability_id version h in
        record {
          is_joined = ground (arith, join-partition t, facts);
          no_mark = ground (arith, has_mark-partition t, facts);
          has_id = facts.1;
          has_version = facts.2;
        }

    from : IsReference (some t) capability_id version → parsed t ≡ returned (capability_id, version)
    from r =
        let joined : some t ≡ some (capability_id ++ at_sign ∷ version) = r.is_joined in
        let same : t ≡ capability_id ++ at_sign ∷ version = cc in
        ap parsed same ∙ parsed-join capability_id version r.no_mark r.has_id r.has_version
