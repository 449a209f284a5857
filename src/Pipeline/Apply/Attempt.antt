-- ===== src/Pipeline/Apply/Attempt.antt =====
-- The `try` block of `apply`: what it sends, and what it leaves alone.
use terraformer.Base.{
  ℕ, suc, ◌≡◌, refl, ap, ◌∙◌, ◌⊎◌, inl, inr, Bool, true, false, Option, none, some, List, [], ◌∷◌,
  ◌++◌,
}
use terraformer.Text.{Text, splitlines}
use terraformer.Drivers.Facts.{InterfaceFacts}
use terraformer.Pipeline.{
  ChangeStep, Exception, Outcome, returned, raised, Env, World, Exec, continue, ◌>>=◌,
  with_connection, closing, configure,
}
use terraformer.Pipeline.Reads.{Reads}
use terraformer.Pipeline.Frames.{
  rows, at_clock, Keeps, Keeps-pure, Keeps-raise, Keeps-bind, Keeps-with_connection, continue-Keeps,
  read_device-Keeps, configure-rows, configure-sent,
}
use terraformer.Pipeline.Apply.{judge, send_and_read, attempt}

pub Outcome-cases :
    {A : Type 0} (r : Outcome A) → ((a : A) × (r ≡ returned a)) ⊎ ((e : Exception) × (r ≡ raised e))
Outcome-cases (returned a) = inl (a, refl)
Outcome-cases (raised e) = inr (e, refl)

abbrev pub sent_of : World → List (List Text)
sent_of w = w.sent

module _ {X : Type 0} (f : World → X)
    (timeless : (w : World) (n : ℕ) → f (at_clock w n) ≡ f w) where
  judge-Keeps : (o : Option Bool) (interfaces : List InterfaceFacts) → Keeps f (judge o interfaces)
  unfolding judge
  judge-Keeps none i = Keeps-raise f timeless _
  judge-Keeps (some false) i = Keeps-raise f timeless _
  judge-Keeps (some true) i = Keeps-pure f timeless _

-- A connection that is not admitted runs nothing.
pub with_connection_refused :
    {A : Type 0} (env : Env) (body : Exec A) (w : World) (e : Exception)
    → env.enter w.clock ≡ raised e
    → with_connection env body w ≡ (raised e, at_clock w (suc w.clock))
unfolding with_connection ◌>>=◌
with_connection_refused env body w e h = rw (h, continue)

pub with_connection_admitted :
    {A : Type 0} (env : Env) (body : Exec A) (w : World) (u : Unit {0})
    → env.enter w.clock ≡ returned u
    → let w' = at_clock w (suc w.clock) in
      with_connection env body w ≡ (
        closing (env.leave (body w').1.clock) (body w').0,
        at_clock (body w').1 (suc (body w').1.clock),
      )
unfolding with_connection ◌>>=◌
with_connection_admitted env body w u h = rw (h, continue)

module _ (env : Env) (step : ChangeStep) where
  send_and_read-rows : Keeps rows (send_and_read env step)
  unfolding send_and_read
  send_and_read-rows =
      Keeps-bind rows (λ w n. refl) _ _ (configure-rows env _)
        λ u. read_device-Keeps rows (λ w n. refl) env step.change_type

  -- The attempt changes no row.
  pub attempt-rows : Keeps rows (attempt env step)
  unfolding attempt
  attempt-rows =
      Keeps-bind rows (λ w n. refl) _ _
        (Keeps-with_connection rows (λ w n. refl) env _ send_and_read-rows)
        λ reads. judge-Keeps rows (λ w n. refl) _ _

  send_and_read-sent :
      (w : World)
      → (send_and_read env step w).1.sent ≡ w.sent ++ splitlines step.rendered_commands ∷ []
  unfolding send_and_read ◌>>=◌
  send_and_read-sent w =
      let (r, w') = configure env (splitlines step.rendered_commands) w in
      continue-Keeps sent_of (λ v n. refl) r _ w'
        (λ u. read_device-Keeps sent_of (λ v n. refl) env step.change_type)
      ∙ configure-sent env (splitlines step.rendered_commands) w

  -- The attempt hands over the commands of the step, or nothing if the connection is refused.
  pub attempt-sent :
      (w : World)
      → (((attempt env step w).1.sent ≡ w.sent)
          × ((e : Exception) × ((attempt env step w).0 ≡ raised e)))
        ⊎ ((attempt env step w).1.sent ≡ w.sent ++ splitlines step.rendered_commands ∷ [])
  unfolding attempt ◌>>=◌
  attempt-sent w = elim (Outcome-cases (env.enter w.clock)) [
    | inl (u, h) ↦ inr (
        let m = with_connection env (send_and_read env step) w in
        continue-Keeps sent_of (λ v n. refl) m.0 _ m.1
          (λ reads. judge-Keeps sent_of (λ v n. refl) _ _)
        ∙ ap (λ (p : Outcome Reads × World). p.1.sent)
            (with_connection_admitted env (send_and_read env step) w u h)
        ∙ send_and_read-sent _)
    | inr (e, h) ↦
        let refused = with_connection_refused env (send_and_read env step) w e h in
        inl (rw (refused, continue), (e, rw (refused, continue)))
  ]
