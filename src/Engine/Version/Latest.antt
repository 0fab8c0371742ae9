-- ===== src/Engine/Version/Latest.antt =====
-- `max` and `sorted` by `parse_version`, as the registries of definitions, capabilities and prompts
-- use them. `version_of` is the version of an entry.
use forge_ai_autonomous_soft.Common.{
  Bool, true, false, ◌||◌, List, [], ◌∷◌, map, Text, text_eq, elem, ◌==◌, if◌then◌else◌, ◌≡◌, ◌⊎◌,
  refl, sym, ap, ◌∙◌, subst, arith, Bool-cases, inl, inr, All, All-mono, sort, insert_sorted,
  IsSorted, sort-IsSorted,
}
use mathlib.Core.List.{Memᴰ}
use forge_ai_autonomous_soft.Engine.Errors.{Result, ok, ok-injective, then_ok, ◌>>=◌}
use forge_ai_autonomous_soft.Engine.Version.{Unicode, Triple, triple_leb, parse_version}

leb_trans : (u v t : Triple) → triple_leb u v ≡ true → triple_leb v t ≡ true → triple_leb u t ≡ true
leb_trans (a, b, c) (p, q, r) (x, y, z) h k = ground arith

leb_total : (u v : Triple) → triple_leb u v ≡ false → triple_leb v u ≡ true
leb_total (a, b, c) (x, y, z) h = ground arith

leb_refl : (u : Triple) → triple_leb u u ≡ true
leb_refl (a, b, c) = ground arith

-- The order of the sort keys.
abbrev pub pair_leb : Triple × Text → Triple × Text → Bool
pair_leb p q = triple_leb p.0 q.0

module _ (unicode : Unicode) {A : Type 0} (version_of : A → Text) where
  -- `max` over the rest, with the best so far and its version: the first of equals stays.
  unfoldable pub max_from : A → Triple → List A → Result A
  unfolding parse_version
  max_from best v [] = ok best
  max_from best v (d ∷ rest) = do
    u ← parse_version unicode (version_of d)
    if triple_leb u v then max_from best v rest else max_from d u rest

  -- `max(candidates, key=...)` of a list that is not empty.
  unfoldable pub latest_from : A → List A → Result A
  unfolding max_from
  latest_from d rest = do v ← parse_version unicode (version_of d); max_from d v rest

  -- Every version of the list parses and is at most `v`.
  abbrev pub IsAtMost : Triple → List A → Type 0
  IsAtMost v = All (λ (d : A).
      (u : Triple) × (parse_version unicode (version_of d) ≡ ok u) × (triple_leb u v ≡ true))

  -- What `max` by version gives of a list: one of its elements, whose version parses, and no version
  -- of the list, all of which parse, is greater.
  abbrev pub IsLatest : List A → A → Type 0
  IsLatest ds best =
      Memᴰ best ds × (v : Triple) × (parse_version unicode (version_of best) ≡ ok v) × IsAtMost v ds

  IsAtMost-mono :
      (u v : Triple) (ds : List A) → triple_leb u v ≡ true → IsAtMost u ds → IsAtMost v ds
  IsAtMost-mono u v ds h = All-mono (λ d k. (k.0, k.1, leb_trans k.0 u v k.2 h)) ds

  above_first :
      (d : A) (a b t : Triple)
      → triple_leb a b ≡ true
      → (u : Triple) × (parse_version unicode (version_of d) ≡ ok u) × (triple_leb u t ≡ true)
      → parse_version unicode (version_of d) ≡ ok b
      → triple_leb a t ≡ true
  above_first d a b t h k p =
      leb_trans a b t h (subst (λ x. triple_leb x t ≡ true) (ok-injective (sym k.1 ∙ p)) k.2)

  max_from-IsLatest :
      (best : A) (v : Triple) (ds : List A) (found : A)
      → parse_version unicode (version_of best) ≡ ok v
      → max_from best v ds ≡ ok found
      → IsLatest (best ∷ ds) found
  unfolding max_from
  max_from-IsLatest best v [] found p h = (
    Memᴰ.head (sym (ok-injective h)),
    v,
    subst (λ (x : A). parse_version unicode (version_of x) ≡ ok v) (ok-injective h) p,
    ((v, p, leb_refl v), tt),
  )
  max_from-IsLatest best v (d ∷ ds) found p h =
      let (u, q, h') = then_ok (parse_version unicode (version_of d)) _ _ h in
      elim (Bool-cases (triple_leb u v)) [
        | inl below ↦
            let (m, t, r, top) = max_from-IsLatest best v ds found p (ground arith) in
            (past m, t, r, (top.0, ((u, q, above_first best u v t below top.0 p), top.1)))
        | inr above ↦
            let (m, t, r, top) = max_from-IsLatest d u ds found q (ground arith) in
            (Memᴰ.tail m, t, r, ((v, p, above_first d v u t (leb_total u v above) top.0 q), top))
      ]
    where
      past : Memᴰ found (best ∷ ds) → Memᴰ found (best ∷ d ∷ ds)
      past (Memᴰ.head e) = Memᴰ.head e
      past (Memᴰ.tail m) = Memᴰ.tail (Memᴰ.tail m)

  pub latest_from-IsLatest :
      (first : A) (rest : List A) (found : A)
      → latest_from first rest ≡ ok found
      → IsLatest (first ∷ rest) found
  unfolding latest_from
  latest_from-IsLatest first rest found h =
      let (v, p, h') = then_ok (parse_version unicode (version_of first)) _ _ h in
      max_from-IsLatest first v rest found p h'

-- A list of versions that all parse, the smaller first.
abbrev pub IsInOrder : Unicode → List Text → Type 0
IsInOrder unicode versions =
    (pairs : List (Triple × Text)) × (versions ≡ map (λ (p : Triple × Text). p.1) pairs)
    × All (λ (p : Triple × Text). parse_version unicode p.1 ≡ ok p.0) pairs
    × IsSorted pair_leb pairs

texts : List (Triple × Text) → List Text
texts pairs = map (λ (p : Triple × Text). p.1) pairs

All-insert :
    {A : Type 0} (P : A → Type 0) (le : A → A → Bool) (x : A) (xs : List A)
    → P x
    → All P xs
    → All P (insert_sorted le x xs)
All-insert P le x [] h k = (h, tt)
All-insert P le x (y ∷ ys) h k = elim (Bool-cases (le x y)) [
  | inl below ↦ rw below (h, k)
  | inr above ↦ rw above (k.0, All-insert P le x ys h k.1)
]

All-sort :
    {A : Type 0} (P : A → Type 0) (le : A → A → Bool) (xs : List A) → All P xs → All P (sort le xs)
All-sort P le [] h = tt
All-sort P le (x ∷ xs) h = All-insert P le x (sort le xs) h.0 (All-sort P le xs h.1)

elem-texts_insert :
    (t : Text) (x : Triple × Text) (xs : List (Triple × Text))
    → elem t (texts (insert_sorted pair_leb x xs)) ≡ (t == x.1 || elem t (texts xs))
unfolding texts
elem-texts_insert t x [] = refl
elem-texts_insert t x (y ∷ ys) = ground (arith, elem-texts_insert t x ys)

elem-texts-sort :
    (t : Text) (xs : List (Triple × Text)) → elem t (texts (sort pair_leb xs)) ≡ elem t (texts xs)
unfolding texts
elem-texts-sort t [] = refl
elem-texts-sort t (x ∷ xs) =
    elem-texts_insert t x (sort pair_leb xs) ∙ ap (λ b. t == x.1 || b) (elem-texts-sort t xs)

module _ (unicode : Unicode) where
  -- The sort keys, computed in order before anything is compared.
  unfoldable pub with_versions : List Text → Result (List (Triple × Text))
  unfolding parse_version
  with_versions [] = ok []
  with_versions (t ∷ rest) = do
    v ← parse_version unicode t
    others ← with_versions rest
    ok ((v, t) ∷ others)

  -- `sorted(versions, key=parse_version)`
  unfoldable pub sorted_versions : List Text → Result (List Text)
  unfolding with_versions
  sorted_versions versions = do
    pairs ← with_versions versions
    ok (map (λ (p : Triple × Text). p.1) (sort pair_leb pairs))

  with_versions_lem :
      (versions : List Text) (pairs : List (Triple × Text))
      → with_versions versions ≡ ok pairs
      → (texts pairs ≡ versions)
        × All (λ (p : Triple × Text). parse_version unicode p.1 ≡ ok p.0) pairs
  unfolding with_versions texts
  with_versions_lem [] pairs h =
      subst
        (λ ps. (texts ps ≡ []) × All (λ (p : Triple × Text). parse_version unicode p.1 ≡ ok p.0) ps)
        (ok-injective h) (refl, tt)
  with_versions_lem (t ∷ rest) pairs h =
      let (v, parses, h') = then_ok (parse_version unicode t) _ _ h in
      let (others, found, h'') = then_ok (with_versions rest) _ _ h' in
      let (same, all) = with_versions_lem rest others found in
      subst
        (λ ps.
          (texts ps ≡ t ∷ rest)
          × All (λ (p : Triple × Text). parse_version unicode p.1 ≡ ok p.0) ps)
        (ok-injective h'') (ap (λ l. t ∷ l) same, (parses, all))

  -- The versions are those given, and the smaller stand first.
  pub sorted_versions-IsInOrder :
      (versions sorted : List Text)
      → sorted_versions versions ≡ ok sorted
      → IsInOrder unicode sorted × ((t : Text) → elem t sorted ≡ elem t versions)
  unfolding sorted_versions texts
  sorted_versions-IsInOrder versions sorted h =
      let (pairs, found, h') = then_ok (with_versions versions) _ _ h in
      let (same, all) = with_versions_lem versions pairs found in
      (
        (
          sort pair_leb pairs,
          sym (ok-injective h'),
          All-sort (λ (p : Triple × Text). parse_version unicode p.1 ≡ ok p.0) pair_leb pairs all,
          sort-IsSorted pair_leb (λ p q. total p.0 q.0) (λ p q r. leb_trans p.0 q.0 r.0) pairs,
        ),
        λ t. ap (elem t) (sym (ok-injective h')) ∙ elem-texts-sort t pairs ∙ ap (elem t) same,
      )
    where
      total : (u v : Triple) → (triple_leb u v ≡ true) ⊎ (triple_leb v u ≡ true)
      total u v = elim (Bool-cases (triple_leb u v)) [
        | inl below ↦ inl below
        | inr above ↦ inr (leb_total u v above)
      ]
