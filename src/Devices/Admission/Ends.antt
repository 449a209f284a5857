-- ===== src/Devices/Admission/Ends.antt =====
-- How `admitted_connection` of services/devices.py ends: what was done, and in which order.
use terraformer.Base.{
  subst, ℕ, suc, ◌≡◌, refl, sym, ◌∙◌, ap, Bool, true, false, Option, List, [], ◌∷◌, ◌++◌,
  append-nil, append_assoc, if◌then◌else◌, inl, inr,
}
use terraformer.Text.{Text, codes}
use terraformer.Errors.{AppError}
use terraformer.Gate.{ConnectionTarget, ConnectionPermit}
use terraformer.Devices.Admission.{
  app, fault, interrupt, Result, returned, raised, Act, acquires, acquired, released, uses,
  notes_failure, notes_success, audits, commits, World, Run, pure, act, ask, ◌>>=◌, Env, Request,
  Decision, allowed, commit_session, audit, refuse, acquired_or_refused, acquire_permit, note_phase,
  concluded, use_connection, with_permit, is_authentication, is_post_authentication,
}
use terraformer.Devices.Admission.Acts.{
  IsQuiet, verdict, Used, Acquires, Releases, Does, Quietly, Refusing, Does-bind, Quietly-bind,
  Refusing-bind, Quietly-act, Quietly-pure,
}

module _ {A : Type 0} (env : Env A) (request : Request) where
  Quietly-audit :
      (phase : Text) (d : Decision) (c : Text) → Does Quietly (audit env request phase d c)
  unfolding audit
  Quietly-audit phase d c = Quietly-act (audits _) env.record_event refl

  Quietly-commit : Does Quietly (commit_session env request)
  unfolding commit_session
  Quietly-commit = go request.commits_session
    where
      go : (b : Bool) → Does Quietly (if b then act commits env.commit else pure tt)
      go true = Quietly-act commits env.commit refl
      go false = Quietly-pure tt

  pub refuse-Refusing :
      (B : Type 0) (e : AppError) (phase : Option Text)
      → Does Refusing (refuse env request {B = B} e phase)
  unfolding refuse
  refuse-Refusing B e phase = Refusing-bind (audit env request _ _ _) _ (Quietly-audit _ _ _) (λ u.
      Refusing-bind (commit_session env request) _ Quietly-commit
        (λ v w. ([], (sym (append-nil w.acts), (tt, tt)))))

  -- The gate is told what the body's end means, if anything, and the rest is quiet.
  abbrev Told : Result A → Result A → List Act → Type 0
  Told b r xs = (rest : List Act) × ((xs ≡ verdict b ++ rest) × IsQuiet rest)

  -- Exactly these acts.
  abbrev Just : {B : Type 0} → List Act → Result B → List Act → Type 0
  Just ys r xs = xs ≡ ys

  Told-bind :
      {B : Type 0} (b : Result A) (m : Run B) (f : B → Run A)
      → Does (Just (verdict b)) m
      → ((x : B) → Does Quietly (f x))
      → Does (Told b) (m >>= f)
  Told-bind b m f dm df =
      Does-bind (Just (verdict b)) Quietly (Told b) f m dm df
        (λ e xs d. ([], (d ∙ sym (append-nil _), tt)))
        (λ x r xs ys d q. (ys, (ap (λ (l : List Act). l ++ ys) d, q)))

  concluded-Told :
      (target : ConnectionTarget) (b : Result A) → Does (Told b) (concluded env request target b)
  unfolding concluded note_phase
  concluded-Told target (returned a) =
      Told-bind (returned a) (act notes_success (env.authentication_succeeded target)) _
        (λ w. (notes_success ∷ [], (refl, refl)))
        (λ u. Quietly-bind (audit env request _ _ _) _ (Quietly-audit _ _ _) (λ v. Quietly-pure a))
  concluded-Told target (raised (app e phase)) =
      Told-bind (raised (app e phase)) (note_phase env request target phase) _
        (noted (is_authentication phase) (is_post_authentication phase))
        (λ u. Quietly-bind (audit env request _ _ _) _ (Quietly-audit _ _ _) (λ v.
          Quietly-bind (commit_session env request) _ Quietly-commit
            (λ x w. ([], (sym (append-nil w.acts), tt)))))
    where
      noted :
          (a p : Bool)
          → Does (Just (if a then notes_failure ∷ [] else if p then notes_success ∷ [] else [])) (
              if a
              then act notes_failure (env.authentication_failed target)
              else if p
              then act notes_success (env.authentication_succeeded target)
              else pure tt)
      noted true p w = (notes_failure ∷ [], (refl, refl))
      noted false true w = (notes_success ∷ [], (refl, refl))
      noted false false w = ([], (sym (append-nil w.acts), refl))
  concluded-Told target (raised fault) = λ w.
      let (xs, (q, d)) =
        Quietly-bind (audit env request _ _ _) _
          (Quietly-audit (codes "complete") allowed (codes "internal_error"))
          (λ v.
            Quietly-bind (commit_session env request) _ Quietly-commit
              (λ x w. ([], (sym (append-nil w.acts), tt))))
          w in
      (xs, (q, (xs, (refl, d))))
  concluded-Told target (raised interrupt) = λ w. ([], (sym (append-nil w.acts), ([], (refl, tt))))

  use_connection-Used :
      (target : ConnectionTarget)
      → Does (λ r xs. Used env.body xs) (use_connection env request target)
  unfolding use_connection
  use_connection-Used target =
      before (ask env.get_profile) _ (Quietly-none env.get_profile)
        (λ u. before (ask env.decrypt) _ (Quietly-none env.decrypt) (λ v. used))
    where
      Quietly-none : {B : Type 0} (answer : ℕ → Result B) → Does (Just []) (ask answer)
      Quietly-none answer w = ([], (sym (append-nil w.acts), refl))

      before :
          {B : Type 0} (m : Run B) (f : B → Run A)
          → Does (Just []) m
          → ((b : B) → Does (λ r xs. Used env.body xs) (f b))
          → Does (λ r xs. Used env.body xs) (m >>= f)
      before m f dm df =
          Does-bind (Just []) (λ r xs. Used env.body xs) (λ r xs. Used env.body xs) f m dm df
            (λ e xs d. inl d)
            (λ b r xs ys d x. subst (λ (l : List Act). Used env.body (l ++ ys)) (sym d) x)

      used :
          Does
            (λ r xs. Used env.body xs)
            (λ w. let (r, w') = act uses env.body w in concluded env request target r w')
      used w =
          let after : World = record w { clock = suc w.clock; acts = w.acts ++ uses ∷ [] } in
          let (xs, (q, (rest, (t, h)))) = concluded-Told target (env.body w.clock) after in
          (
            uses ∷ xs,
            (
              q ∙ append_assoc w.acts (uses ∷ []) xs,
              inr (w.clock, (rest, (ap (λ (l : List Act). uses ∷ l) t, h))),
            ),
          )

  -- Held from the start.
  pub with_permit-Held :
      (target : ConnectionTarget) (p : ConnectionPermit)
      → Does (Releases p env.body) (with_permit env request target p)
  unfolding with_permit
  with_permit-Held target p w =
      let (during, (q, u)) = use_connection-Used target w in
      (
        during ++ released p ∷ [],
        (
          ap (λ (l : List Act). l ++ released p ∷ []) q
              ∙ append_assoc w.acts during (released p ∷ []),
          (during, (refl, u)),
        ),
      )

  pub acquire_permit-Acquires :
      (target : ConnectionTarget) → Does Acquires (acquire_permit env request target)
  unfolding acquire_permit acquired_or_refused
  acquire_permit-Acquires target w = go (env.acquire request.operation target w.clock)
    where
      after : World
      after = record w { clock = suc w.clock; acts = w.acts ++ acquires ∷ [] }

      quiet :
          (r : Result ConnectionPermit) (xs : List Act) → Refusing r xs → Acquires r (acquires ∷ xs)
      quiet (returned p) xs h = absurd h.0
      quiet (raised e) xs h = (refl, h.1)

      go :
          (r : Result ConnectionPermit)
          → (xs : List Act) × (((acquired_or_refused env request r after).1.acts ≡ w.acts ++ xs)
              × Acquires (acquired_or_refused env request r after).0 xs)
      go (returned p) = (
        acquires ∷ acquired p ∷ [],
        (append_assoc w.acts (acquires ∷ []) (acquired p ∷ []), refl),
      )
      go (raised (app e phase)) =
          let (xs, (q, d)) = refuse-Refusing ConnectionPermit e phase after in
          (acquires ∷ xs, (q ∙ append_assoc w.acts (acquires ∷ []) xs, quiet _ xs d))
      go (raised fault) = (acquires ∷ [], (refl, (refl, tt)))
      go (raised interrupt) = (acquires ∷ [], (refl, (refl, tt)))
