-- ===== src/Engine/Graph/Levels.antt =====
-- What `topological_levels` returns, and when.
use forge_ai_autonomous_soft.Common.{
  ℕ, zero, suc, ◌≤◌, ◌<◌, ◌≡◌, ◌≢◌, refl, sym, ◌∙◌, subst, ap, Bool, true, false, not, ◌&&◌, ◌||◌,
  List, [], ◌∷◌, ◌++◌, Text, text_eq, text_leb, text_leb_total, text_leb_trans, elem, all, select,
  dedup, length, length-select-le, elem-sort, elem-select, elem-append, elem-dedup, arith, Eq,
  IsSorted, sort-IsSorted, text_beq_iff,
}
use mathlib.Core.List.{append-nil, append_assoc}
use forge_ai_autonomous_soft.Engine.Errors.{Result, ok, err, out_of_fuel}
use forge_ai_autonomous_soft.Engine.Graph.{
  Dependencies, dependencies, is_ready, ready, without, rounds, topological_levels,
}

module _ {ℓ} {A : Type ℓ} ⦃e : Eq A⦄ where
  all-elem : (p : A → Bool) (a : A) (xs : List A) → all p xs ≡ true → elem a xs ≡ true → p a ≡ true
  all-elem p a [] h m = absurd (cc)
  all-elem p a (x ∷ xs) h m = ground (arith, all-elem p a xs, (e.beq_iff a x).0)

  length-select-lt :
      (p : A → Bool) (a : A) (xs : List A)
      → elem a xs ≡ true
      → p a ≡ false
      → length (select p xs) < length xs
  length-select-lt p a [] m h = absurd (cc)
  length-select-lt p a (x ∷ xs) m h =
      ground (arith, length-select-lt p a xs, (e.beq_iff a x).0, length-select-le p xs)

abbrev pub flatten : List (List Text) → List Text
flatten [] = []
flatten (l ∷ ls) = l ++ flatten ls

module _ (depends_on : Dependencies) where
  -- Every dependency of the stage is among `resolved`.
  abbrev pub Rests : List Text → Text → Type 0
  Rests resolved stage_id =
      (dep : Text) → elem dep (dependencies depends_on stage_id) ≡ true → elem dep resolved ≡ true

  -- A level is sorted, and its stages rest on `resolved` and the levels before.
  abbrev pub IsLayered : List Text → List (List Text) → Type 0
  IsLayered resolved [] = Unit
  IsLayered resolved (level ∷ levels) =
      (level ≢ [])
      × IsSorted text_leb level
      × ((a : Text) → elem a level ≡ true → Rests resolved a)
      × IsLayered (resolved ++ level) levels

  pub elem-ready :
      (resolved remaining : List Text) (a : Text)
      → elem a (ready depends_on resolved remaining)
        ≡ (elem a remaining && is_ready depends_on resolved a)
  elem-ready resolved remaining a =
      elem-sort text_leb a (select (is_ready depends_on resolved) remaining)
      ∙ elem-select a (is_ready depends_on resolved) remaining

  is_ready-Rests :
      (resolved : List Text) (a : Text) → is_ready depends_on resolved a ≡ true → Rests resolved a
  unfolding is_ready
  is_ready-Rests resolved a h dep m =
      all-elem (λ d. elem d resolved) dep (dependencies depends_on a) h m

  ready-Rests :
      (resolved remaining : List Text) (a : Text)
      → elem a (ready depends_on resolved remaining) ≡ true
      → Rests resolved a
  ready-Rests resolved remaining a h =
      is_ready-Rests resolved a (ground (arith, elem-ready resolved remaining a))

  pub elem-split :
      (found remaining : List Text) (a : Text)
      → (elem a found ≡ true → elem a remaining ≡ true)
      → (elem a found || elem a (without found remaining)) ≡ elem a remaining
  elem-split found remaining a h = ground (arith, elem-select a (λ x. not (elem x found)) remaining)

  -- A round that finds a stage leaves fewer.
  pub length-without-lt :
      (resolved remaining more : List Text) (a : Text)
      → ready depends_on resolved remaining ≡ a ∷ more
      → length (without (a ∷ more) remaining) < length remaining
  length-without-lt resolved remaining more a e =
      length-select-lt (λ x. not (elem x (a ∷ more))) a remaining
        (ground (arith, elem-ready resolved remaining a, ap (elem a) e, (text_beq_iff a a).1 refl))
        (ground (arith, (text_beq_iff a a).1 refl))

  -- What a run of the loop must satisfy, by how it ends.
  abbrev Layers : List Text → List Text → List (List Text) → Result (List (List Text)) → Type 0
  Layers remaining resolved levels (err e) = (e ≢ out_of_fuel)
  Layers remaining resolved levels (ok out) =
      (more : List (List Text)) × (out ≡ levels ++ more)
      × IsLayered resolved more
      × ((a : Text) → elem a (flatten more) ≡ elem a remaining)

  -- A level in front of what the rest of the loop yields.
  Layers-cons :
      (remaining resolved level : List Text) (levels : List (List Text))
      (r : Result (List (List Text)))
      → ready depends_on resolved remaining ≡ level
      → level ≢ []
      → Layers (without level remaining) (resolved ++ level) (levels ++ level ∷ []) r
      → Layers remaining resolved levels r
  Layers-cons remaining resolved level levels (err e) found filled h = h
  Layers-cons remaining resolved level levels (ok out) found filled (more, same, layered, elems) = (
    level ∷ more,
    same ∙ append_assoc levels (level ∷ []) more,
    (filled, level_sorted, level_rests, layered),
    λ a.
        elem-append a level (flatten more)
        ∙ ap (λ b. elem a level || b) (elems a)
        ∙ elem-split level remaining a (level_remains a),
  )
    where
      level_sorted : IsSorted text_leb level
      level_sorted = subst (IsSorted text_leb) found (
          sort-IsSorted text_leb text_leb_total text_leb_trans
            (select (is_ready depends_on resolved) remaining))

      level_rests : (a : Text) → elem a level ≡ true → Rests resolved a
      level_rests a m =
          ready-Rests resolved remaining a (subst (λ l. elem a l ≡ true) (sym found) m)

      level_remains : (a : Text) → elem a level ≡ true → elem a remaining ≡ true
      level_remains a m =
          ground
            (arith, elem-ready resolved remaining a, subst (λ l. elem a l ≡ true) (sym found) m)

  rounds-Layers :
      (fuel : ℕ) (remaining resolved : List Text) (levels : List (List Text))
      → length remaining ≤ fuel
      → Layers remaining resolved levels (rounds depends_on fuel remaining resolved levels)
  unfolding rounds
  rounds-Layers fuel [] resolved levels h = ([], sym (append-nil levels), tt, λ a. refl)
  rounds-Layers zero (r ∷ rs) resolved levels h = absurd (omega arith)
  rounds-Layers (suc fuel) (r ∷ rs) resolved levels h =
      go (ready depends_on resolved (r ∷ rs)) refl (λ found.
        rounds-Layers fuel (without found (r ∷ rs)) (resolved ++ found) (levels ++ found ∷ []))
    where
      go :
          (found : List Text)
          → ready depends_on resolved (r ∷ rs) ≡ found
          → ((level : List Text)
              → length (without level (r ∷ rs)) ≤ fuel
              → Layers (without level (r ∷ rs)) (resolved ++ level) (levels ++ level ∷ []) (
                  rounds depends_on fuel
                    (without level (r ∷ rs))
                    (resolved ++ level)
                    (levels ++ level ∷ [])))
          → Layers (r ∷ rs) resolved levels (rounds depends_on (suc fuel) (r ∷ rs) resolved levels)
      go [] e ih = rw (e, rounds) (λ same. cc)
      go (a ∷ more) e ih =
          rw (e, rounds)
            (Layers-cons (r ∷ rs) resolved (a ∷ more) levels _ e (λ c. cc)
              (ih (a ∷ more) (omega (arith, length-without-lt resolved (r ∷ rs) more a e))))

-- The levels of a graph hold exactly the given stages; each level is sorted and not empty, and every
-- dependency of a stage of a level stands in an earlier level.
pub topological_levels-IsLayered :
    (stage_ids : List Text) (depends_on : Dependencies) (levels : List (List Text))
    → topological_levels stage_ids depends_on ≡ ok levels
    → IsLayered depends_on [] levels × ((a : Text) → elem a (flatten levels) ≡ elem a stage_ids)
unfolding topological_levels
topological_levels-IsLayered stage_ids depends_on levels h =
    let (more, same, layered, elems) =
      subst (Layers depends_on (dedup stage_ids) [] []) h (
        rounds-Layers depends_on (length (dedup stage_ids)) (dedup stage_ids) [] []
          (omega arith)) in
    (
      subst (IsLayered depends_on []) (sym same) layered,
      λ a. ap (λ l. elem a (flatten l)) same ∙ elems a ∙ elem-dedup a stage_ids,
    )

-- The fuel is enough for every graph: the loop of `topological_levels` never runs out of it.
pub topological_levels-ne-out_of_fuel :
    (stage_ids : List Text) (depends_on : Dependencies)
    → topological_levels stage_ids depends_on ≢ err out_of_fuel
unfolding topological_levels
topological_levels-ne-out_of_fuel stage_ids depends_on h =
    subst (Layers depends_on (dedup stage_ids) [] []) h
      (rounds-Layers depends_on (length (dedup stage_ids)) (dedup stage_ids) [] [] (omega arith))
      refl
