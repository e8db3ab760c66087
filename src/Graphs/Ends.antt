-- ===== src/Graphs/Ends.antt =====
-- How an action ends, and one rule for each way to build an action. An action that ends so makes no
-- fault.
use win_dv.Prelude.{◌≡◌, refl, Bool, true, false, List, ◌∷◌, Option, none, some}
use win_dv.Graphs.{
  continue, rethrow, unwind, Ref, Hr, Object, Cause, Answer, returned, thrown, Action, ◌>>=◌, check,
  when, or_unwind,
}
use win_dv.Graphs.Objects.{acquire, acquire_member}

-- It returns with `R`, or throws with `T`.
abbrev EndsAt :
    {A : Type 0}
    → (A → Object → Type 0)
    → (Cause → Object → Type 0)
    → Option (Answer A × Object)
    → Type 0
EndsAt R T none = ⊥
EndsAt R T (some (returned a, o)) = R a o
EndsAt R T (some (thrown c, o)) = T c o

pub record Ends {A : Type 0} (R : A → Object → Type 0) (T : Cause → Object → Type 0)
    (x : Option (Answer A × Object)) : Type 0 where
  pub at : EndsAt R T x

pub Ends-returned :
    {A : Type 0} {R : A → Object → Type 0} {T : Cause → Object → Type 0} (a : A) (o : Object)
    → R a o
    → Ends R T (some (returned a, o))
Ends-returned a o r = record { at = r }

pub Ends-thrown :
    {A : Type 0} {R : A → Object → Type 0} {T : Cause → Object → Type 0} (c : Cause) (o : Object)
    → T c o
    → Ends R T (some (thrown c, o))
Ends-thrown c o t = record { at = t }

-- What follows starts where the action returns.
Ends-continue :
    {A B : Type 0} {R : B → Object → Type 0} {T : Cause → Object → Type 0}
    (x : Option (Answer A × Object)) (f : A → Action B)
    → Ends (λ a o'. Ends R T (f a o')) T x
    → Ends R T (continue x f)
Ends-continue none f e = absurd e.at
Ends-continue (some (returned a, o)) f e = e.at
Ends-continue (some (thrown c, o)) f e = record { at = e.at }

pub Ends-bind :
    {A B : Type 0} {R : B → Object → Type 0} {T : Cause → Object → Type 0} (m : Action A)
    (f : A → Action B) (o : Object)
    → Ends (λ a o'. Ends R T (f a o')) T (m o)
    → Ends R T ((m >>= f) o)
Ends-bind m f o e = Ends-continue (m o) f e

-- The bases are destroyed where the body throws.
Ends-rethrow :
    {R : Unit {0} → Object → Type 0} {T : Cause → Object → Type 0} (c : Cause)
    (x : Option (Answer (Unit {0}) × Object))
    → Ends (λ a o. T c o) (λ c' o. T c o) x
    → Ends R T (rethrow c x)
Ends-rethrow c none e = absurd e.at
Ends-rethrow c (some (returned a, o)) e = record { at = e.at }
Ends-rethrow c (some (thrown c', o)) e = record { at = e.at }

Ends-unwind :
    {R : Unit {0} → Object → Type 0} {T : Cause → Object → Type 0}
    (x : Option (Answer (Unit {0}) × Object)) (bases : Action (Unit {0}))
    → Ends R (λ c o. Ends (λ a o'. T c o') (λ c' o'. T c o') (bases o)) x
    → Ends R T (unwind x bases)
Ends-unwind none bases e = absurd e.at
Ends-unwind (some (returned a, o)) bases e = record { at = e.at }
Ends-unwind (some (thrown c, o)) bases e = Ends-rethrow c (bases o) e.at

pub Ends-or_unwind :
    {R : Unit {0} → Object → Type 0} {T : Cause → Object → Type 0} (body bases : Action (Unit {0}))
    (o : Object)
    → Ends R (λ c o'. Ends (λ a o''. T c o'') (λ c' o''. T c o'') (bases o')) (body o)
    → Ends R T (or_unwind body bases o)
Ends-or_unwind body bases o e = Ends-unwind (body o) bases e

module _ {R : Unit {0} → Object → Type 0} {T : Cause → Object → Type 0} where
  pub Ends-check : (h : Hr) (c : Cause) (o : Object) → R tt o → T c o → Ends R T (check h c o)
  Ends-check Hr.s_ok c o good bad = record { at = good }
  Ends-check Hr.s_false c o good bad = record { at = bad }
  Ends-check Hr.failed c o good bad = record { at = bad }

  pub Ends-when :
      (b : Bool) (m : Action (Unit {0})) (o : Object)
      → Ends R T (m o)
      → R tt o
      → Ends R T (when b m o)
  Ends-when true m o done skipped = done
  Ends-when false m o done skipped = record { at = skipped }

  pub Ends-when-true :
      (b : Bool) (m : Action (Unit {0})) (o : Object)
      → b ≡ true
      → Ends R T (m o)
      → Ends R T (when b m o)
  Ends-when-true true m o e done = done
  Ends-when-true false m o e done = cc

  pub Ends-acquire :
      (r : Ref) (h : Hr) (o : Object)
      → R tt (record o { held = r ∷ o.held })
      → T Cause.error (record o { held = r ∷ o.held })
      → T Cause.error o
      → Ends R T (acquire r h o)
  Ends-acquire r Hr.s_ok o good other bad = record { at = good }
  Ends-acquire r Hr.s_false o good other bad = record { at = other }
  Ends-acquire r Hr.failed o good other bad = record { at = bad }

  pub Ends-acquire_member :
      (r : Ref) (h : Hr) (o : Object)
      → R tt (record o { held = r ∷ o.held; pointers = r ∷ o.pointers })
      → T Cause.error (record o { held = r ∷ o.held; pointers = r ∷ o.pointers })
      → T Cause.error o
      → Ends R T (acquire_member r h o)
  Ends-acquire_member r Hr.s_ok o good other bad = record { at = good }
  Ends-acquire_member r Hr.s_false o good other bad = record { at = other }
  Ends-acquire_member r Hr.failed o good other bad = record { at = bad }

pub ruleset ends_rules = (
  refl, Ends-returned, Ends-thrown, Ends-bind, Ends-or_unwind, Ends-check, Ends-when, Ends-acquire,
  Ends-acquire_member,
)
