-- ===== src/Common/Catalog.antt =====
-- A registry whose entries are never overwritten: a dict and a registration that refuses a key that
-- is there.
use mathlib.Core.Path.{◌≡◌, refl, sym, ◌∙◌, ap, subst}
use mathlib.Core.Logic.{inl, inr}
use mathlib.Core.Bool.{Bool, true, false}
use mathlib.Core.Option.{Option, none, some}
use mathlib.Core.List.{List, [], ◌∷◌}
use native.Mathlib.Omega.{arith}
use forge_ai_autonomous_soft.Common.Tests.{if◌then◌else◌, Eq, ◌==◌, Bool-cases}
use forge_ai_autonomous_soft.Common.Dicts.{
  Dict, lookup, insert, has_key, lookup-insert_self, lookup-insert_ne,
}
use forge_ai_autonomous_soft.Common.Outcome.{Outcome, returned, raised}

-- `try: return d[key]` and `except KeyError: raise e`
abbrev pub or_missing {κ μ} : {V : Type κ} {E : Type μ} → E → Option V → Outcome E V
or_missing e none = raised e
or_missing e (some v) = returned v

-- `result.scalar_one_or_none()`, with SQLAlchemy's error for several rows.
abbrev pub scalar_one_or_none {κ μ} : {A : Type κ} {E : Type μ} → E → List A → Outcome E (Option A)
scalar_one_or_none e [] = returned none
scalar_one_or_none e (a ∷ []) = returned (some a)
scalar_one_or_none e (a ∷ b ∷ rows) = raised e

-- The one that was there first.
abbrev pub first_of {κ} : {V : Type κ} → Option V → Option V → Option V
first_of none later = later
first_of (some v) later = some v

first_of-none {κ} : {V : Type κ} (o : Option V) → first_of o none ≡ o
first_of-none none = refl
first_of-none (some v) = refl

first_of_assoc {κ} :
    {V : Type κ} (o : Option V) (b : Bool) (v : V) (later : Option V)
    → first_of (first_of o (if b then some v else none)) later
      ≡ first_of o (if b then some v else later)
first_of_assoc none true v later = refl
first_of_assoc none false v later = refl
first_of_assoc (some w) b v later = refl

module _ {ℓ κ μ} {K : Type ℓ} {V : Type κ} {E : Type μ} ⦃eq : Eq K⦄ where
  -- `if key in d: raise e` and `d[key] = value`
  abbrev pub add_new : E → K → V → Dict K V → Outcome E (Dict K V)
  add_new e k v d = if has_key k d then raised e else returned (insert k v d)

  -- The dict after a registration, which a raise leaves as it was.
  abbrev pub after_add : Dict K V → Outcome E (Dict K V) → Dict K V
  after_add d (returned d') = d'
  after_add d (raised e) = d

module _ {ℓ κ} {K : Type ℓ} {V : Type κ} ⦃eq : Eq K⦄ where
  -- Registrations one after the other, whichever of them are refused.
  abbrev pub add_all {μ} : {E : Type μ} → (K → E) → List (K × V) → Dict K V → Dict K V
  add_all e [] d = d
  add_all e ((k, v) ∷ entries) d = add_all e entries (after_add d (add_new (e k) k v d))

  -- The specification: a key is looked up in the registrations themselves, the first one counts.
  abbrev pub first_registered : K → List (K × V) → Option V
  first_registered k [] = none
  first_registered k ((j, v) ∷ entries) = if k == j then some v else first_registered k entries

module _ {ℓ κ μ} {K : Type ℓ} {V : Type κ} {E : Type μ} ⦃eq : Eq K⦄ where
  lookup-add_new :
      (e : E) (k j : K) (v : V) (d : Dict K V)
      → lookup k (after_add d (add_new e j v d))
        ≡ first_of (lookup k d) (if k == j then some v else none)
  lookup-add_new e k j v d = elim (Bool-cases (k == j)) [
    | inl same ↦
        subst
          (λ x.
            lookup x (after_add d (add_new e j v d))
            ≡ first_of (lookup x d) (if x == j then some v else none))
          (sym ((eq.beq_iff k j).0 same)) (at_key (lookup j d) refl)
    | inr other ↦ elsewhere (lookup j d) refl other
  ]
    where
      at_key :
          (o : Option V)
          → lookup j d ≡ o
          → lookup j (after_add d (add_new e j v d))
            ≡ first_of (lookup j d) (if j == j then some v else none)
      at_key none h = rw h (ground (arith, lookup-insert_self j v d, (eq.beq_iff j j).1 refl))
      at_key (some w) h = ground (arith, h)

      elsewhere :
          (o : Option V)
          → lookup j d ≡ o
          → (k == j) ≡ false
          → lookup k (after_add d (add_new e j v d))
            ≡ first_of (lookup k d) (if k == j then some v else none)
      elsewhere none h ne =
          ground
            (arith, h, ne, lookup-insert_ne k j v d, (eq.beq_iff k j).1, first_of-none (lookup k d))
      elsewhere (some w) h ne = ground (arith, h, ne, first_of-none (lookup k d))

  -- Whatever is registered, in whatever order: a lookup finds what was there before, or else the
  -- first registration of the key.
  pub lookup-add_all :
      (e : K → E) (k : K) (entries : List (K × V)) (d : Dict K V)
      → lookup k (add_all e entries d) ≡ first_of (lookup k d) (first_registered k entries)
  lookup-add_all e k [] d = sym (first_of-none (lookup k d))
  lookup-add_all e k ((j, v) ∷ entries) d =
      lookup-add_all e k entries (after_add d (add_new (e j) j v d))
      ∙ ap (λ o. first_of o (first_registered k entries)) (lookup-add_new (e j) k j v d)
      ∙ first_of_assoc (lookup k d) (k == j) v (first_registered k entries)
