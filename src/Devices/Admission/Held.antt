-- ===== src/Devices/Admission/Held.antt =====
-- `admitted_connection` of services/devices.py: a permit is held while the connection is used, and
-- never longer.
use terraformer.Base.{
  ℕ, ◌≡◌, refl, sym, ◌∙◌, ap, Bool, true, false, Option, none, some, List, [], ◌∷◌, ◌++◌,
  append-nil, append_assoc, All-append,
}
use terraformer.Text.{codes}
use terraformer.Errors.{gate, policy}
use terraformer.Errors.Admission.{connection_gate_unavailable}
use terraformer.Gate.{ConnectionTarget, ConnectionPermit}
use terraformer.Devices.Policy.{Reason, enforce_compatibility_policy, policy_error}
use terraformer.Devices.Admission.{
  Result, returned, raised, Act, acquires, acquired, World, Run, continue, ask, ◌>>=◌, Env, Request,
  refuse, host_key_of, check_host_key, acquire_permit, with_permit, with_gate, judged,
  admitted_connection,
}
use terraformer.Devices.Admission.Acts.{
  Does, Quietly, Refusing, Does-bind, Quietly-ask, IsQuiet, is_quiet, AdmittedEnds, refused, held,
  Acquires,
}
use terraformer.Devices.Admission.Ends.{refuse-Refusing, with_permit-Held, acquire_permit-Acquires}

module _ {A : Type 0} (env : Env A) (request : Request) where
  abbrev Ends : Result A → List Act → Type 0
  Ends r xs = AdmittedEnds env.body r xs

  quiet-Ends : (r : Result A) (xs ys : List Act) → IsQuiet xs → Ends r ys → Ends r (xs ++ ys)
  quiet-Ends r xs ys h (refused e q) = refused e (All-append (λ a. is_quiet a ≡ true) xs ys h q)
  quiet-Ends r xs ys h (held p before during e q u) =
      held p (xs ++ before) during
        (ap (λ (l : List Act). xs ++ l) e ∙ sym (append_assoc xs before _))
        (All-append (λ a. is_quiet a ≡ true) xs before h q) u

  refuse-Ends : (m : Run A) → Does Refusing m → Does Ends m
  refuse-Ends m d w = let (xs, (q, r)) = d w in (xs, (q, refused r.0 r.1))

  after_quiet :
      {B : Type 0} (m : Run B) (f : B → Run A)
      → Does Quietly m
      → ((b : B) → Does Ends (f b))
      → Does Ends (m >>= f)
  after_quiet m f dm df =
      Does-bind Quietly Ends Ends f m dm df (λ e xs d. refused tt d)
        (λ b r xs ys d x. quiet-Ends r xs ys d x)

  check_host_key-Quietly : Does Quietly (check_host_key env request)
  unfolding check_host_key host_key_of
  check_host_key-Quietly = go request.device_id request.host_key_candidate_id
    where
      go : (device candidate : Option ℕ) → Does Quietly (host_key_of env request device candidate)
      go (some d) candidate = Quietly-ask env.require_host_key
      go none (some c) = Quietly-ask env.resolve_candidate
      go none none = λ w. ([], (sym (append-nil w.acts), tt))

  permitted-Ends :
      (target : ConnectionTarget)
      → Does Ends (acquire_permit env request target >>= with_permit env request target)
  permitted-Ends target w =
      let (xs, (q, d)) = acquire_permit-Acquires env request target w in
      go (acquire_permit env request target w).0 (acquire_permit env request target w).1 xs q d
    where
      go :
          (r : Result ConnectionPermit) (v : World) (xs : List Act)
          → v.acts ≡ w.acts ++ xs
          → Acquires r xs
          → (zs : List Act) × (((continue r (with_permit env request target) v).1.acts
                ≡ w.acts ++ zs)
              × Ends (continue r (with_permit env request target) v).0 zs)
      go (raised e) v xs q d = (xs, (q, refused tt d))
      go (returned p) v xs q d =
          let (ys, (e, (during, (f, u)))) = with_permit-Held env request target p v in
          (
            xs ++ ys,
            (
              e ∙ ap (λ (l : List Act). l ++ ys) q ∙ append_assoc w.acts xs ys,
              held p (acquires ∷ []) during
                  (ap (λ (l : List Act). l ++ ys) d
                    ∙ ap (λ (l : List Act). acquires ∷ acquired p ∷ l) f)
                  (refl, tt) u,
            ),
          )

  with_gate-Ends : (b : Bool) → Does Ends (with_gate env request b)
  unfolding with_gate
  with_gate-Ends false =
      refuse-Ends (refuse env request (gate connection_gate_unavailable) none)
        (refuse-Refusing env request A (gate connection_gate_unavailable) none)
  with_gate-Ends true = after_quiet (check_host_key env request) _ check_host_key-Quietly (λ u.
      after_quiet (ask env.target) _ (Quietly-ask env.target) (λ target. permitted-Ends target))

  judged-Ends : (o : Option Reason) → Does Ends (judged env request o)
  unfolding judged
  judged-Ends (some reason) =
      let e = policy (policy_error request.compatibility env.settings request.acknowledged) in
      refuse-Ends (refuse env request e (some (codes "authorization")))
        (refuse-Refusing env request A e (some (codes "authorization")))
  judged-Ends none = with_gate-Ends env.has_gate

  pub policy-Refusing :
      (reason : Reason)
      → enforce_compatibility_policy request.compatibility env.settings request.acknowledged
        ≡ some reason
      → Does Refusing (admitted_connection env request)
  unfolding admitted_connection judged
  policy-Refusing reason h = rw h (
      refuse-Refusing env request A
        (policy (policy_error request.compatibility env.settings request.acknowledged))
        (some (codes "authorization")))

  -- Whatever the outside answers, on every path through errors included: either no permit is given,
  -- the device is not used and an error is raised; or exactly one permit is given, the device is used
  -- at most once and only while it is held, the gate is told a failed authentication just when the use
  -- ended in that phase and a success just when it returned or ended in a later phase, and the release
  -- of that permit is the last thing done.
  pub admitted-AdmittedEnds :
      (w : World)
      → (xs : List Act) × (((admitted_connection env request w).1.acts ≡ w.acts ++ xs)
          × AdmittedEnds env.body (admitted_connection env request w).0 xs)
  unfolding admitted_connection
  admitted-AdmittedEnds w =
      judged-Ends
        (enforce_compatibility_policy request.compatibility env.settings request.acknowledged) w
