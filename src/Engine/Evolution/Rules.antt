-- ===== src/Engine/Evolution/Rules.antt =====
-- `Evolves` is a preorder, and `Evolving` has a rule for each way to build a call.
use forge_ai_autonomous_soft.Common.{
  ℕ, ◌≡◌, refl, sym, ◌∙◌, Bool, true, false, Option, none, some, List, [], ◌∷◌, ◌++◌, if◌then◌else◌,
  eqb, arith, Bool-cases, inl, inr, subst,
}
use mathlib.Core.List.{append-nil, append_assoc}
use forge_ai_autonomous_soft.Core.{WorkflowStatus, StageStatus}
use forge_ai_autonomous_soft.Engine.Errors.{Result, ok, err, EngineError}
use forge_ai_autonomous_soft.Engine.Session.Rows.{WorkflowEvent}
use forge_ai_autonomous_soft.Engine.Session.Actions.{
  World, Store, Action, pure, raise, gets, lift, or_raise, modify, ◌>>=◌, continue, by_id, update,
  now, fresh,
}
use forge_ai_autonomous_soft.Engine.Evolution.{
  view, Evolves, Evolving, Onward, Extends, WorkflowTrail, StageTrail,
}

pub WorkflowTrail-append :
    (i : ℕ) (es fs : List WorkflowEvent) (a b c : WorkflowStatus)
    → WorkflowTrail i es a b
    → WorkflowTrail i fs b c
    → WorkflowTrail i (es ++ fs) a c
WorkflowTrail-append i [] fs a b c p q = subst (λ x. WorkflowTrail i fs x c) (sym p) q
WorkflowTrail-append i (e ∷ es) fs a b c (x, step, p) q =
    (x, step, WorkflowTrail-append i es fs x b c p q)

pub StageTrail-append :
    (i : ℕ) (es fs : List WorkflowEvent) (a b c : StageStatus)
    → StageTrail i es a b
    → StageTrail i fs b c
    → StageTrail i (es ++ fs) a c
StageTrail-append i [] fs a b c p q = subst (λ x. StageTrail i fs x c) (sym p) q
StageTrail-append i (e ∷ es) fs a b c (x, step, p) q =
    (x, step, StageTrail-append i es fs x b c p q)

module _ {A : Type 0} (R : A → A → Type 0) where
  pub Onward-refl : ((a : A) → R a a) → (o : Option A) → Onward R o o
  Onward-refl r none = tt
  Onward-refl r (some a) = r a

-- Two moves one after the other.
Onward-trans :
    {A : Type 0} (R S T : A → A → Type 0)
    → ((a b c : A) → R a b → S b c → T a c)
    → (o p q : Option A) → Onward R o p
    → Onward S p q
    → Onward T o q
Onward-trans R S T t none p q h k = tt
Onward-trans R S T t (some a) none q h k = absurd h
Onward-trans R S T t (some a) (some b) none h k = absurd k
Onward-trans R S T t (some a) (some b) (some c) h k = t a b c h k

added_both :
    {A : Type 0} (xs ys zs p q : List A) → ys ≡ xs ++ p → zs ≡ ys ++ q → zs ≡ xs ++ (p ++ q)
added_both xs ys zs p q e f = f ∙ subst (λ l. l ++ q ≡ xs ++ (p ++ q)) (sym e) (append_assoc xs p q)

Extends-trans : {A : Type 0} (xs ys zs : List A) → Extends xs ys → Extends ys zs → Extends xs zs
Extends-trans xs ys zs (p, e) (q, f) = (p ++ q, added_both xs ys zs p q e f)

pub nothing_added : {A : Type 0} (xs : List A) → xs ≡ xs ++ []
nothing_added xs = sym (append-nil xs)

pub Extends-refl : {A : Type 0} (xs : List A) → Extends xs xs
Extends-refl xs = ([], nothing_added xs)

-- No event, and no status that moves.
pub workflow_rests : (i : ℕ) (o : Option WorkflowStatus) → Onward (WorkflowTrail i []) o o
workflow_rests i = Onward-refl (WorkflowTrail i []) (λ a. refl)

pub stage_rests : (i : ℕ) (o : Option StageStatus) → Onward (StageTrail i []) o o
stage_rests i = Onward-refl (StageTrail i []) (λ a. refl)

pub Evolves-refl : (s : Store) → Evolves s s
Evolves-refl s = record {
  events = ([], nothing_added s.events);
  workflows = λ i. workflow_rests i _;
  stages = λ i. stage_rests i _;
  decisions = λ i. Onward-refl ◌≡◌ (λ a. refl) _;
  runner_calls = Extends-refl s.runner_calls;
  queue = Extends-refl s.queue;
}

pub Evolves-trans : (s t u : Store) → Evolves s t → Evolves t u → Evolves s u
Evolves-trans s t u p q = record {
  events = (
    p.events.0 ++ q.events.0,
    added_both s.events t.events u.events p.events.0 q.events.0 p.events.1 q.events.1,
  );
  workflows = λ i.
      Onward-trans (WorkflowTrail i p.events.0) (WorkflowTrail i q.events.0)
        (WorkflowTrail i (p.events.0 ++ q.events.0)) (WorkflowTrail-append i p.events.0 q.events.0)
        _ _ _ (p.workflows i) (q.workflows i);
  stages = λ i.
      Onward-trans (StageTrail i p.events.0) (StageTrail i q.events.0)
        (StageTrail i (p.events.0 ++ q.events.0)) (StageTrail-append i p.events.0 q.events.0) _ _ _
        (p.stages i) (q.stages i);
  decisions =
      λ i. Onward-trans ◌≡◌ ◌≡◌ ◌≡◌ (λ a b c h k. h ∙ k) _ _ _ (p.decisions i) (q.decisions i);
  runner_calls =
      Extends-trans s.runner_calls t.runner_calls u.runner_calls p.runner_calls q.runner_calls;
  queue = Extends-trans s.queue t.queue u.queue p.queue q.queue;
}

module _ {A : Type 0} where
  pub Evolving-pure : (a : A) → Evolving (pure a)
  Evolving-pure a = record { at = Evolves-refl }

  pub Evolving-raise : (e : EngineError) → Evolving (raise {A = A} e)
  Evolving-raise e = record { at = Evolves-refl }

  pub Evolving-gets : (f : Store → A) → Evolving (gets f)
  Evolving-gets f = record { at = Evolves-refl }

  pub Evolving-lift : (r : Result A) → Evolving (lift r)
  Evolving-lift r = record { at = Evolves-refl }

  pub Evolving-or_raise : (e : EngineError) (o : Option A) → Evolving (or_raise e o)
  Evolving-or_raise e none = record { at = Evolves-refl }
  Evolving-or_raise e (some a) = record { at = Evolves-refl }

  pub Evolving-if :
      (b : Bool) (m n : Action A) → Evolving m → Evolving n → Evolving (if b then m else n)
  Evolving-if true m n p q = p
  Evolving-if false m n p q = q

module _ {A B : Type 0} where
  Evolving-continue :
      (r : Result A) (f : A → Action B) → ((a : A) → Evolving (f a)) → Evolving (continue r f)
  Evolving-continue (ok a) f h = h a
  Evolving-continue (err e) f h = record { at = Evolves-refl }

  pub Evolving-bind :
      (m : Action A) (f : A → Action B)
      → Evolving m
      → ((a : A) → Evolving (f a))
      → Evolving (m >>= f)
  Evolving-bind m f p h = record {
    at = λ s.
        Evolves-trans s (m s).1 ((m >>= f) s).1 (p.at s)
          ((Evolving-continue (m s).0 f h).at (m s).1);
  }

pub Evolving-modify : (f : Store → Store) → ((s : Store) → Evolves s (f s)) → Evolving (modify f)
Evolving-modify f h = record { at = h }

-- A write that leaves these tables alone.
pub now-Evolving : (w : World) → Evolving (now w)
unfolding now
now-Evolving w = record {
  at = λ s. record {
    workflows = λ i. workflow_rests i _;
    stages = λ i. stage_rests i _;
    decisions = (Evolves-refl s).decisions;
    events = ([], nothing_added s.events);
    runner_calls = Extends-refl s.runner_calls;
    queue = Extends-refl s.queue;
  };
}

pub fresh-Evolving : Evolving fresh
unfolding fresh
fresh-Evolving = record {
  at = λ s. record {
    workflows = λ i. workflow_rests i _;
    stages = λ i. stage_rests i _;
    decisions = (Evolves-refl s).decisions;
    events = ([], nothing_added s.events);
    runner_calls = Extends-refl s.runner_calls;
    queue = Extends-refl s.queue;
  };
}

pub ruleset evolving_rules = (
  Evolving-pure, Evolving-raise, Evolving-gets, Evolving-lift, Evolving-or_raise, Evolving-if,
  Evolving-bind, now-Evolving, fresh-Evolving,
)

abbrev pub rewritten : {A : Type 0} → (A → A) → Option A → Option A
rewritten f none = none
rewritten f (some a) = some (f a)

-- The row that a table gives for an id, after a write to the row of an id.
module _ {A : Type 0} (id_of : A → ℕ) where
  pub by_id-update :
      (i j : ℕ) (f : A → A) (rows : List A)
      → ((row : A) → id_of (f row) ≡ id_of row)
      → by_id id_of j (update id_of i f rows)
        ≡ (if eqb j i then rewritten f (by_id id_of j rows) else by_id id_of j rows)
  by_id-update i j f [] h = ground arith
  by_id-update i j f (row ∷ rows) h = ground (arith, h row, by_id-update i j f rows h)

-- `elim o [ none ↦ m | some a ↦ f a ]`
module _ {A B : Type 0} where
  pub Evolving-option :
      (m : Action B) (f : A → Action B) (o : Option A)
      → Evolving m
      → ((a : A) → Evolving (f a))
      → Evolving (elim o [ none ↦ m | some a ↦ f a ])
  Evolving-option m f none p q = p
  Evolving-option m f (some a) p q = q a

-- A row that is there is still found when others are added behind it.
module _ {A B : Type 0} (id_of : A → ℕ) (R : B → B → Type 0) (same : (b : B) → R b b) where
  pub Onward-append :
      (g : A → Option B) (i : ℕ) (rows more : List A)
      → Onward R (view g (by_id id_of i rows)) (view g (by_id id_of i (rows ++ more)))
  Onward-append g i [] more = tt
  Onward-append g i (row ∷ rows) more = elim (Bool-cases (eqb (id_of row) i)) [
    | inl here ↦ rw here (Onward-refl R same (g row))
    | inr there ↦ rw there (Onward-append g i rows more)
  ]
