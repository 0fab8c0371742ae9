-- ===== src/Engine/Graph/Cycles.antt =====
-- CyclicDependencyError is raised of cyclic graphs only.
use forge_ai_autonomous_soft.Common.{
  ℕ, zero, suc, ◌≤◌, ◌<◌, ◌≡◌, ◌≢◌, refl, ap, Bool, true, false, ◌||◌, List, [], ◌∷◌, ◌++◌, Text,
  text_eq, elem, all, dedup, length, elem-append, elem-dedup, arith, Bool-cases, inl, inr,
  text_beq_iff,
}
use forge_ai_autonomous_soft.Engine.Errors.{Result, ok}
use forge_ai_autonomous_soft.Engine.Graph.{
  Dependencies, dependencies, is_ready, ready, without, rounds, topological_levels,
}
use forge_ai_autonomous_soft.Engine.Graph.Levels.{elem-ready, elem-split, length-without-lt}

-- `rank` puts every dependency of a given stage below the stage, and it is a given stage itself: the
-- graph has no cycle and no dangling reference.
pub record IsRanked (rank : Text → ℕ) (stage_ids : List Text) (depends_on : Dependencies)
    : Type 0 where
  pub below :
      (a dep : Text)
      → elem a stage_ids ≡ true
      → elem dep (dependencies depends_on a) ≡ true
      → rank dep < rank a
  pub known :
      (a dep : Text)
      → elem a stage_ids ≡ true
      → elem dep (dependencies depends_on a) ≡ true
      → elem dep stage_ids ≡ true

-- A test that fails on a list fails on an element.
all_fails :
    (p : Text → Bool) (xs : List Text)
    → all p xs ≡ false
    → (d : Text) × (elem d xs ≡ true) × (p d ≡ false)
all_fails p [] h = absurd (cc)
all_fails p (x ∷ xs) h = elim (Bool-cases (p x)) [
  | inl passes ↦ let (d, m, fails) = all_fails p xs (ground arith) in (d, ground arith, fails)
  | inr fails ↦ (x, ground (arith, (text_beq_iff x x).1 refl), fails)
]

module _ (rank : Text → ℕ) (stage_ids : List Text) (depends_on : Dependencies)
    (ranked : IsRanked rank stage_ids depends_on) where
  abbrev Covers : List Text → List Text → Type 0
  Covers resolved remaining = (a : Text) → (elem a resolved || elem a remaining) ≡ elem a stage_ids

  -- If no stage is ready, none remains whose rank is below `n`.
  -- A stage that is not ready has a dependency that remains.
  blocked :
      (resolved remaining : List Text) (a : Text)
      → Covers resolved remaining
      → elem a remaining ≡ true
      → is_ready depends_on resolved a ≡ false
      → (dep : Text) × (rank dep < rank a) × (elem dep remaining ≡ true)
  unfolding is_ready
  blocked resolved remaining a cover m stuck =
      let (dep, listed, missing) =
        all_fails (λ d. elem d resolved) (dependencies depends_on a) stuck in
      let given : elem a stage_ids ≡ true = ground (arith, cover a) in
      (
        dep,
        ranked.below a dep given listed,
        ground (arith, cover dep, ranked.known a dep given listed, missing),
      )

  -- If no stage is ready, none remains whose rank is below `n`.
  descent :
      (resolved remaining : List Text)
      → Covers resolved remaining
      → ready depends_on resolved remaining ≡ []
      → (n : ℕ) (a : Text) → rank a < n
      → elem a remaining ≢ true
  descent resolved remaining cover idle zero a h m = omega arith
  descent resolved remaining cover idle (suc n) a h m =
      let stuck : is_ready depends_on resolved a ≡ false =
        ground (arith, elem-ready depends_on resolved remaining a, ap (elem a) idle) in
      let (dep, lower, left) = blocked resolved remaining a cover m stuck in
      descent resolved remaining cover idle n dep (omega arith) left

  Covers-round :
      (resolved remaining level : List Text)
      → ready depends_on resolved remaining ≡ level
      → Covers resolved remaining
      → Covers (resolved ++ level) (without level remaining)
  Covers-round resolved remaining level e cover a = ground (
    arith,
    cover a,
    elem-append a resolved level,
    elem-split depends_on level remaining a,
    elem-ready depends_on resolved remaining a,
    ap (elem a) e,
  )

  abbrev IsOk : Result (List (List Text)) → Type 0
  IsOk r = (levels : List (List Text)) × (r ≡ ok levels)

  rounds-IsOk :
      (fuel : ℕ) (remaining resolved : List Text) (levels : List (List Text))
      → length remaining ≤ fuel
      → Covers resolved remaining
      → IsOk (rounds depends_on fuel remaining resolved levels)
  unfolding rounds
  rounds-IsOk fuel [] resolved levels h cover = (levels, refl)
  rounds-IsOk zero (r ∷ rs) resolved levels h cover = absurd (omega arith)
  rounds-IsOk (suc fuel) (r ∷ rs) resolved levels h cover =
      go (ready depends_on resolved (r ∷ rs)) refl (λ found.
        rounds-IsOk fuel (without found (r ∷ rs)) (resolved ++ found) (levels ++ found ∷ []))
    where
      go :
          (found : List Text)
          → ready depends_on resolved (r ∷ rs) ≡ found
          → ((level : List Text)
              → length (without level (r ∷ rs)) ≤ fuel
              → Covers (resolved ++ level) (without level (r ∷ rs))
              → IsOk (
                  rounds depends_on fuel
                    (without level (r ∷ rs))
                    (resolved ++ level)
                    (levels ++ level ∷ [])))
          → IsOk (rounds depends_on (suc fuel) (r ∷ rs) resolved levels)
      go [] e ih = absurd (
          descent resolved (r ∷ rs) cover e (suc (rank r)) r (omega arith)
            (ground (arith, (text_beq_iff r r).1 refl)))
      go (a ∷ more) e ih =
          rw (e, rounds)
            (ih (a ∷ more) (omega (arith, length-without-lt depends_on resolved (r ∷ rs) more a e))
              (Covers-round resolved (r ∷ rs) (a ∷ more) e cover))

-- A graph whose stages can be ranked, with each dependency below its stage and itself among the
-- stages, has levels: neither CyclicDependencyError nor anything else is raised.
pub topological_levels_of_ranked :
    (rank : Text → ℕ) (stage_ids : List Text) (depends_on : Dependencies)
    → IsRanked rank stage_ids depends_on
    → (levels : List (List Text)) × (topological_levels stage_ids depends_on ≡ ok levels)
unfolding topological_levels
topological_levels_of_ranked rank stage_ids depends_on ranked =
    rounds-IsOk rank stage_ids depends_on ranked (length (dedup stage_ids)) (dedup stage_ids) [] []
      (omega arith) (λ a. elem-dedup a stage_ids)
