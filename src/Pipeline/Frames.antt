-- ===== src/Pipeline/Frames.antt =====
-- What an action leaves alone: a part of the world that ignores the clock, kept by every read.
use terraformer.Base.{ℕ, suc, ◌≡◌, refl, ◌∙◌, Bool, true, false, List, [], ◌∷◌, ◌++◌}
use terraformer.Text.{Text}
use terraformer.Models.{ChangeType}
use terraformer.Drivers.Facts.{InterfaceFacts}
use terraformer.Pipeline.{
  ChangePlan, Exception, Outcome, returned, raised, Env, World, Exec, continue, ◌>>=◌, pure, raise,
  ask, ask_if, with_connection, configure, closing,
}
use terraformer.Pipeline.Reads.{read_device}

pub record Rows : Type 0 where
  pub plan : ChangePlan
  pub saved_plan : ChangePlan
  pub plans : List ChangePlan
  pub saved_plans : List ChangePlan
  pub inventory : List InterfaceFacts
  pub saved_inventory : List InterfaceFacts

-- The rows of the session and of the database.
abbrev pub rows : World → Rows
rows w = record {
  plan = w.plan;
  saved_plan = w.saved_plan;
  plans = w.plans;
  saved_plans = w.saved_plans;
  inventory = w.inventory;
  saved_inventory = w.saved_inventory;
}

abbrev pub at_clock : World → ℕ → World
at_clock w n = record w { clock = n }

module _ {X : Type 0} (f : World → X) where
  pub record Keeps {A : Type 0} (m : Exec A) : Type 0 where
    pub at : (w : World) → f (m w).1 ≡ f w

  module _ (timeless : (w : World) (n : ℕ) → f (at_clock w n) ≡ f w) where
    pub Keeps-pure : {A : Type 0} (a : A) → Keeps (pure a)
    unfolding pure
    Keeps-pure a = record { at = λ w. refl }

    pub Keeps-raise : {A : Type 0} (e : Exception) → Keeps (raise {A = A} e)
    unfolding raise
    Keeps-raise e = record { at = λ w. refl }

    pub Keeps-ask : {A : Type 0} (answer : ℕ → Outcome A) → Keeps (ask answer)
    unfolding ask
    Keeps-ask answer = record { at = λ w. timeless w (suc w.clock) }

    pub Keeps-ask_if :
        {A : Type 0} (b : Bool) (answer : ℕ → Outcome A) (a : A) → Keeps (ask_if b answer a)
    unfolding ask_if
    Keeps-ask_if true answer a = Keeps-ask answer
    Keeps-ask_if false answer a = Keeps-pure a

    pub continue-Keeps :
        {A B : Type 0} (r : Outcome A) (g : A → Exec B) (w : World)
        → ((a : A) → Keeps (g a))
        → f (continue r g w).1 ≡ f w
    continue-Keeps (returned a) g w k = (k a).at w
    continue-Keeps (raised e) g w k = refl

    pub Keeps-bind :
        {A B : Type 0} (m : Exec A) (g : A → Exec B)
        → Keeps m
        → ((a : A) → Keeps (g a))
        → Keeps (m >>= g)
    unfolding ◌>>=◌
    Keeps-bind m g km kg = record {
      at = λ w. let (r, w') = m w in continue-Keeps r g w' kg ∙ km.at w;
    }

    pub Keeps-with_connection :
        {A : Type 0} (env : Env) (body : Exec A) → Keeps body → Keeps (with_connection env body)
    unfolding with_connection
    Keeps-with_connection env body k =
        Keeps-bind _ _ (Keeps-ask env.enter)
          λ u. record { at = λ w. timeless (body w).1 _ ∙ k.at w }

    pub ruleset keeps =
        (Keeps-pure, Keeps-raise, Keeps-ask, Keeps-ask_if, Keeps-bind, Keeps-with_connection)

    pub read_device-Keeps : (env : Env) (type : ChangeType) → Keeps (read_device env type)
    unfolding read_device
    read_device-Keeps env type = search keeps depth 10

-- An action that hands over one batch and does no more to the rows.
pub configure-rows : (env : Env) (commands : List Text) → Keeps rows (configure env commands)
unfolding configure ◌>>=◌
configure-rows env commands = record { at = λ w. refl }

pub configure-sent :
    (env : Env) (commands : List Text) (w : World)
    → (configure env commands w).1.sent ≡ w.sent ++ commands ∷ []
unfolding configure ◌>>=◌
configure-sent env commands w = refl

-- A chain that returns: its first part returned.
pub bind-returned :
    {A B : Type 0} (m : Exec A) (g : A → Exec B) (w : World) (b : B)
    → ((m >>= g) w).0 ≡ returned b
    → (a : A) × (((m w).0 ≡ returned a) × ((g a (m w).1).0 ≡ returned b))
unfolding ◌>>=◌
bind-returned {A = A} {B = B} m g w b h = go (m w) h
  where
    go :
        (p : Outcome A × World)
        → (continue p.0 g p.1).0 ≡ returned b
        → (a : A) × ((p.0 ≡ returned a) × ((g a p.1).0 ≡ returned b))
    go (returned a, v) e = (a, (refl, e))
    go (raised x, v) e = cc e

closing-returned :
    {A : Type 0} (o : Outcome (Unit {0})) (r : Outcome A) (a : A)
    → closing o r ≡ returned a
    → r ≡ returned a
unfolding closing
closing-returned (returned u) r a h = h
closing-returned (raised e) r a h = cc h

-- A connection whose block returns: the body returned, right after it was admitted.
pub with_connection-returned :
    {A : Type 0} (env : Env) (body : Exec A) (w : World) (a : A)
    → (with_connection env body w).0 ≡ returned a
    → (body (at_clock w (suc w.clock))).0 ≡ returned a
unfolding with_connection ask
with_connection-returned env body w a h =
    let (u, (_, rest)) = bind-returned _ _ w a h in closing-returned _ _ a rest
