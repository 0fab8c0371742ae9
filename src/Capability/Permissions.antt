-- ===== src/Capability/Permissions.antt =====
-- services/capability_registry/src/forgeai_capability_registry/permissions.py. A frozenset is a
-- list.
use forge_ai_autonomous_soft.Common.{
  ℕ, true, false, not, List, [], ◌∷◌, map, Text, codes, eqb, Eq, elem, select, dedup, ap, sym, ◌∙◌,
  elem-dedup, elem-select, refl, ◌≡◌, ◌↔◌, arith, text_eq,
}
use forge_ai_autonomous_soft.Common.Outcome.{Outcome, returned, raised}
use forge_ai_autonomous_soft.Capability.Errors.{CapabilityError, permission_denied}

pub data Permission : Type 0 where
  read_context write_artifacts read_memory write_memory call_external_api execute_code
        access_secrets :
      Permission

abbrev pub permission_value : Permission → Text
permission_value read_context = codes "read_context"
permission_value write_artifacts = codes "write_artifacts"
permission_value read_memory = codes "read_memory"
permission_value write_memory = codes "write_memory"
permission_value call_external_api = codes "call_external_api"
permission_value execute_code = codes "execute_code"
permission_value access_secrets = codes "access_secrets"

abbrev permission_rank : Permission → ℕ
permission_rank read_context = 0
permission_rank write_artifacts = 1
permission_rank read_memory = 2
permission_rank write_memory = 3
permission_rank call_external_api = 4
permission_rank execute_code = 5
permission_rank access_secrets = 6

pub permission_rank_iff :
    (a b : Permission) → (eqb (permission_rank a) (permission_rank b) ≡ true) ↔ (a ≡ b)
permission_rank_iff a b = (λ h. ground arith, λ h. ground arith)

instance abbrev pub permission_eq : Eq Permission
permission_eq = record {
  beq = λ a b. eqb (permission_rank a) (permission_rank b);
  beq_iff = permission_rank_iff;
}

-- `required - granted`
abbrev pub missing_from : List Permission → List Permission → List Permission
missing_from granted required = select (λ p. not (elem p granted)) required

abbrev pub denied_unless_empty : Text → List Text → Outcome CapabilityError (Unit {0})
denied_unless_empty capability_id [] = returned tt
denied_unless_empty capability_id (m ∷ ms) = raised (permission_denied capability_id (m ∷ ms))

unfoldable pub check_permissions :
    Text → List Permission → List Permission → Outcome CapabilityError (Unit {0})
check_permissions capability_id required granted =
    denied_unless_empty capability_id (dedup (map permission_value (missing_from granted required)))

-- Every required permission is granted.
abbrev pub IsGranted : List Permission → List Permission → Type 0
IsGranted granted required = (p : Permission) → elem p required ≡ true → elem p granted ≡ true

no_elements : {A : Type 0} ⦃e : Eq A⦄ (xs : List A) → ((a : A) → elem a xs ≡ false) → xs ≡ []
no_elements [] h = refl
no_elements ⦃e⦄ (x ∷ xs) h = absurd (ground (arith, h x, (e.beq_iff x x).1 refl))

dedup_empty : (ts : List Text) → dedup ts ≡ [] → ts ≡ []
dedup_empty ts h = no_elements ts (λ a. sym (elem-dedup a ts) ∙ ap (elem a) h)

map_empty : (ps : List Permission) → map permission_value ps ≡ [] → ps ≡ []
map_empty [] h = refl
map_empty (p ∷ ps) h = absurd (cc)

-- The check of permissions passes exactly if every required permission is granted.
pub check_permissions_iff :
    (capability_id : Text) (required granted : List Permission)
    → (check_permissions capability_id required granted ≡ returned tt) ↔ IsGranted granted required
unfolding check_permissions
check_permissions_iff capability_id required granted = (passes, granting)
  where
    none_denied : (ts : List Text) → denied_unless_empty capability_id ts ≡ returned tt → ts ≡ []
    none_denied [] h = refl
    none_denied (t ∷ ts) h = absurd (cc)

    passes :
        denied_unless_empty capability_id
            (dedup (map permission_value (missing_from granted required)))
          ≡ returned tt
        → IsGranted granted required
    passes h p r =
        let empty = map_empty (missing_from granted required) (dedup_empty _ (none_denied _ h)) in
        let absent = sym (elem-select p (λ q. not (elem q granted)) required) ∙ ap (elem p) empty in
        ground (arith, absent, r)

    granting :
        IsGranted granted required
        → denied_unless_empty capability_id
            (dedup (map permission_value (missing_from granted required)))
          ≡ returned tt
    granting g =
        ap (λ ps. denied_unless_empty capability_id (dedup (map permission_value ps)))
          (no_elements (missing_from granted required)
            (λ p. elem-select p (λ q. not (elem q granted)) required ∙ ground (arith, g p)))
