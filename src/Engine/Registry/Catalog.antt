-- ===== src/Engine/Registry/Catalog.antt =====
-- What the catalog answers after a registration, and which version is the latest.
use forge_ai_autonomous_soft.Engine.Errors.{Result}
use forge_ai_autonomous_soft.Common.{
  Bool, true, false, if◌then◌else◌, ◌==◌, has_key, elem, map, select, keys, true, false, Option,
  none, some, List, [], ◌∷◌, Text, text_eq, pair_eq, if◌then◌else◌, ◌≡◌, ◌≢◌, refl, codes, sym, ap,
  ◌∙◌, arith, lookup, insert, lookup-insert_self, lookup-insert_ne,
}
use forge_ai_autonomous_soft.Engine.Errors.{
  ok, err, definition_already_registered, definition_not_found, ok-injective,
}
use forge_ai_autonomous_soft.Engine.Version.{Unicode}
use forge_ai_autonomous_soft.Engine.Definition.{WorkflowDefinition}
use forge_ai_autonomous_soft.Common.Outcome.{returned, raised}
use forge_ai_autonomous_soft.Common.Catalog.{add_all, after_add, first_registered, lookup-add_all}
use forge_ai_autonomous_soft.Engine.Version.Latest.{
  IsInOrder, sorted_versions-IsInOrder, IsLatest, latest_from-IsLatest,
}
use forge_ai_autonomous_soft.Engine.Registry.{
  is_registered, list_versions, version_of, Registry, register, get, get_latest, latest, candidates,
  found_or,
}

-- What a definition is registered under.
abbrev pub entry_key : WorkflowDefinition → Text × Text
entry_key d = (d.key, d.version)

register_inv :
    (d : WorkflowDefinition) (definitions after : Registry)
    → register d definitions ≡ ok after
    → (lookup (d.key, d.version) definitions ≡ none)
      × (insert (d.key, d.version) d definitions ≡ after)
unfolding register
register_inv d definitions after h = go (lookup (d.key, d.version) definitions) refl h
  where
    go :
        (o : Option WorkflowDefinition)
        → lookup (d.key, d.version) definitions ≡ o
        → (if elim o [ none ↦ false | some _ ↦ true ]
            then err (definition_already_registered d.key d.version)
            else ok (insert (d.key, d.version) d definitions))
          ≡ ok after
        → (lookup (d.key, d.version) definitions ≡ none)
          × (insert (d.key, d.version) d definitions ≡ after)
    go none e h = (e, ok-injective h)
    go (some old) e h = absurd (cc)

-- After a registration that succeeds, the catalog, which had nothing under the definition's key and
-- version, gives that definition there, answers every other key and version as before, and refuses
-- every further definition of the same key and version.
pub register-get :
    (d : WorkflowDefinition) (definitions after : Registry)
    → register d definitions ≡ ok after
    → (get d.key d.version definitions ≡ err (definition_not_found d.key d.version))
      × (get d.key d.version after ≡ ok d)
      × ((k : Text × Text) → k ≢ entry_key d → get k.0 k.1 after ≡ get k.0 k.1 definitions)
      × ((e : WorkflowDefinition)
          → entry_key e ≡ entry_key d
          → register e after ≡ err (definition_already_registered e.key e.version))
unfolding register get
register-get d definitions after h =
    let (free, same) = register_inv d definitions after h in
    let kept =
      ap (lookup (entry_key d)) (sym same) ∙ lookup-insert_self (entry_key d) d definitions in
    (
      ap (found_or d.key d.version) free,
      ap (found_or d.key d.version) kept,
      λ k ne.
          ap (found_or k.0 k.1)
            (ap (lookup k) (sym same) ∙ lookup-insert_ne k (entry_key d) d definitions ne),
      λ e again. refused e (ap (λ k. lookup k after) again ∙ kept),
    )
  where
    refused :
        (e : WorkflowDefinition)
        → lookup (entry_key e) after ≡ some d
        → register e after ≡ err (definition_already_registered e.key e.version)
    refused e taken =
        ap
          (λ (o : Option WorkflowDefinition).
            if elim o [ none ↦ false | some _ ↦ true ]
            then err (definition_already_registered e.key e.version)
            else ok (insert (e.key, e.version) e after))
          taken

-- `get_latest`, if it returns, returns one of the definitions that the catalog has of the key, whose
-- version parses, and the version of every definition of the key parses and is at most that one,
-- compared as three numbers. If the catalog has no definition of the key it raises
-- DefinitionNotFoundError.
pub get_latest-IsLatest :
    (unicode : Unicode) (key : Text) (definitions : Registry)
    → ((d : WorkflowDefinition)
        → get_latest unicode key definitions ≡ ok d
        → IsLatest unicode version_of (candidates key definitions) d)
      × (candidates key definitions ≡ []
          → get_latest unicode key definitions ≡ err (definition_not_found key (codes "latest")))
unfolding get_latest latest
get_latest-IsLatest unicode key definitions =
    (λ d h. go (candidates key definitions) d h, λ h. ap (latest unicode key) h)
  where
    go :
        (ds : List WorkflowDefinition) (d : WorkflowDefinition)
        → latest unicode key ds ≡ ok d
        → IsLatest unicode version_of ds d
    go [] d h = absurd (cc)
    go (first ∷ rest) d h = latest_from-IsLatest unicode version_of first rest d h

elem-versions :
    (key version : Text) (definitions : Registry)
    → elem version (
        map
          (λ (k : Text × Text). k.1)
          (select (λ (k : Text × Text). k.0 == key) (keys definitions)))
      ≡ has_key (key, version) definitions
elem-versions key version [] = refl
elem-versions key version (((k, v), d) ∷ definitions) =
    ground
      (arith, elem-versions key version definitions, text_eq.beq_iff k key, text_eq.beq_iff key k)

-- `list_versions`, if it returns, lists exactly the versions that are registered of the key, as
-- three numbers in ascending order, each of which parses.
pub list_versions-IsInOrder :
    (unicode : Unicode) (key : Text) (definitions : Registry) (versions : List Text)
    → list_versions unicode key definitions ≡ ok versions
    → IsInOrder unicode versions
      × ((version : Text) → elem version versions ≡ is_registered key version definitions)
unfolding list_versions is_registered
list_versions-IsInOrder unicode key definitions versions h =
    let (ordered, same) = sorted_versions-IsInOrder unicode _ versions h in
    (ordered, λ version. same version ∙ elem-versions key version definitions)

-- A registration that raises leaves the catalog as it was.
abbrev pub kept : Registry → Result Registry → Registry
kept definitions (ok after) = after
kept definitions (err e) = definitions

-- The catalog after a sequence of registrations, of which some may be refused.
unfoldable pub register_all : List WorkflowDefinition → Registry → Registry
unfolding register
register_all [] definitions = definitions
register_all (d ∷ ds) definitions = register_all ds (kept definitions (register d definitions))

abbrev pub entries : List WorkflowDefinition → List ((Text × Text) × WorkflowDefinition)
entries ds = map (λ d. (entry_key d, d)) ds

register_all-add_all :
    (ds : List WorkflowDefinition) (definitions : Registry)
    → register_all ds definitions ≡ add_all (λ (k : Text × Text). k) (entries ds) definitions
unfolding register_all register
register_all-add_all [] definitions = refl
register_all-add_all (d ∷ ds) definitions =
    register_all-add_all ds _
    ∙ ap (λ r. add_all (λ (k : Text × Text). k) (entries ds) r)
        (same (has_key (d.key, d.version) definitions))
  where
    same :
        (taken : Bool)
        → kept definitions (
            if taken
            then err (definition_already_registered d.key d.version)
            else ok (insert (d.key, d.version) d definitions))
          ≡ after_add definitions (
              if taken
              then raised (entry_key d)
              else returned (insert (d.key, d.version) d definitions))
    same true = refl
    same false = refl

-- Seen from outside, the catalog is the sequence of registrations itself: whichever definitions are
-- registered, in whatever order, `get` gives the first of them that has the key and version, and
-- raises DefinitionNotFoundError if none has.
pub get-register_all :
    (ds : List WorkflowDefinition) (key version : Text)
    → get key version (register_all ds [])
      ≡ found_or key version (first_registered (key, version) (entries ds))
unfolding get
get-register_all ds key version = ap (found_or key version) (
    ap (lookup (key, version)) (register_all-add_all ds [])
    ∙ lookup-add_all (λ (k : Text × Text). k) (key, version) (entries ds) [])
