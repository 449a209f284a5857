-- ===== src/Devices/Admission/Acts.antt =====
-- What an admitted connection of services/devices.py does, told by its acts.
use terraformer.Base.{
  ℕ, ◌≡◌, refl, sym, ◌∙◌, ap, Bool, true, false, List, [], ◌∷◌, ◌++◌, append-nil, append_assoc,
  if◌then◌else◌, All, All-append, ◌⊎◌,
}
use terraformer.Gate.{ConnectionPermit}
use terraformer.Devices.Admission.{
  Raised, app, fault, interrupt, Result, returned, raised, Act, acquires, acquired, released, uses,
  notes_failure, notes_success, audits, commits, World, Run, continue, pure, act, ask, ◌>>=◌,
  is_authentication, is_post_authentication,
}

-- No permit is given or released, the connection is not used and the gate is told nothing.
abbrev pub is_quiet : Act → Bool
is_quiet acquires = true
is_quiet (audits row) = true
is_quiet commits = true
is_quiet (acquired p) = false
is_quiet (released p) = false
is_quiet uses = false
is_quiet notes_failure = false
is_quiet notes_success = false

abbrev pub IsQuiet : List Act → Type 0
IsQuiet = All (λ a. is_quiet a ≡ true)

-- What the gate is told when the body of the `with` statement ends so: a failure when it raised in
-- the phase of authentication, a success when it returned or raised in a later phase.
abbrev pub verdict : {A : Type 0} → Result A → List Act
verdict (returned a) = notes_success ∷ []
verdict (raised (app e phase)) =
    if is_authentication phase
    then notes_failure ∷ []
    else if is_post_authentication phase
    then notes_success ∷ []
    else []
verdict (raised fault) = []
verdict (raised interrupt) = []

-- While a permit is held: nothing, when the credentials cannot be had; or the connection is used once,
-- the gate is told of how that ended, and what is left is audits and commits.
abbrev pub Used : {A : Type 0} → (ℕ → Result A) → List Act → Type 0
Used body xs =
    (xs ≡ [])
    ⊎ ((n : ℕ) × ((rest : List Act) × ((xs ≡ uses ∷ (verdict (body n) ++ rest)) × IsQuiet rest)))

abbrev pub IsRaised : {B : Type 0} → Result B → Type 0
IsRaised (returned b) = ⊥
IsRaised (raised e) = Unit

-- No connection is opened, and an error is raised; or one permit is given, all use is made while it
-- is held, and last of all it is released.
pub data AdmittedEnds {A : Type 0} (body : ℕ → Result A) (r : Result A) (xs : List Act)
    : Type 0 where
  refused : IsRaised r → IsQuiet xs → AdmittedEnds body r xs
  held :
      (p : ConnectionPermit) (before during : List Act)
      → xs ≡ before ++ (acquired p ∷ (during ++ released p ∷ []))
      → IsQuiet before
      → Used body during
      → AdmittedEnds body r xs

-- A permit is given, or an error is raised, quietly.
abbrev pub Acquires : Result ConnectionPermit → List Act → Type 0
Acquires (returned p) xs = xs ≡ acquires ∷ acquired p ∷ []
Acquires (raised e) xs = IsQuiet xs

-- A use, and then the release of the permit.
abbrev pub Releases :
    {A : Type 0} → ConnectionPermit → (ℕ → Result A) → Result A → List Act → Type 0
Releases p body r xs = (during : List Act) × ((xs ≡ during ++ released p ∷ []) × Used body during)

-- An action adds these acts to those done before, and ends so.
abbrev pub Does : {B : Type 0} → (Result B → List Act → Type 0) → Run B → Type 0
Does E m = (w : World) → (xs : List Act) × (((m w).1.acts ≡ w.acts ++ xs) × E (m w).0 xs)

abbrev pub Quietly : {B : Type 0} → Result B → List Act → Type 0
Quietly r xs = IsQuiet xs

-- Quiet, and it raises.
abbrev pub Refusing : {B : Type 0} → Result B → List Act → Type 0
Refusing r xs = IsRaised r × IsQuiet xs

pub nothing :
    {B : Type 0} (m : Run B) (w : World) → (m w).1.acts ≡ w.acts → (m w).1.acts ≡ w.acts ++ []
nothing m w e = e ∙ sym (append-nil w.acts)

-- One action and then another: what each does, together.
module _ {B C : Type 0} (D : Result B → List Act → Type 0) (E F : Result C → List Act → Type 0)
    (f : B → Run C) where
  continued :
      ((e : Raised) (xs : List Act) → D (raised e) xs → F (raised e) xs)
      → ((b : B) (r : Result C) (xs ys : List Act) → D (returned b) xs → E r ys → F r (xs ++ ys))
      → ((b : B) → Does E (f b))
      → (r : Result B) (w before : World) (xs : List Act) → w.acts ≡ before.acts ++ xs
      → D r xs
      → (zs : List Act) × (((continue r f w).1.acts ≡ before.acts ++ zs) × F (continue r f w).0 zs)
  continued failed joined df (raised e) w before xs q d = (xs, (q, failed e xs d))
  continued failed joined df (returned b) w before xs q d =
      let (ys, (p, x)) = df b w in
      (
        xs ++ ys,
        (
          p ∙ ap (λ (l : List Act). l ++ ys) q ∙ append_assoc before.acts xs ys,
          joined b _ xs ys d x,
        ),
      )

  pub Does-bind :
      (m : Run B)
      → Does D m
      → ((b : B) → Does E (f b))
      → ((e : Raised) (xs : List Act) → D (raised e) xs → F (raised e) xs)
      → ((b : B) (r : Result C) (xs ys : List Act) → D (returned b) xs → E r ys → F r (xs ++ ys))
      → Does F (m >>= f)
  Does-bind m dm df failed joined w =
      let (xs, (q, d)) = dm w in continued failed joined df (m w).0 (m w).1 w xs q d

pub Quietly-bind :
    {B C : Type 0} (m : Run B) (f : B → Run C)
    → Does Quietly m
    → ((b : B) → Does Quietly (f b))
    → Does Quietly (m >>= f)
Quietly-bind m f dm df =
    Does-bind Quietly Quietly Quietly f m dm df (λ e xs d. d)
      (λ b r xs ys d x. All-append (λ a. is_quiet a ≡ true) xs ys d x)

pub Refusing-bind :
    {B C : Type 0} (m : Run B) (f : B → Run C)
    → Does Quietly m
    → ((b : B) → Does Refusing (f b))
    → Does Refusing (m >>= f)
Refusing-bind m f dm df =
    Does-bind Quietly Refusing Refusing f m dm df (λ e xs d. (tt, d))
      (λ b r xs ys d x. (x.0, All-append (λ a. is_quiet a ≡ true) xs ys d x.1))

pub Quietly-ask : {B : Type 0} (answer : ℕ → Result B) → Does Quietly (ask answer)
Quietly-ask answer w = ([], (sym (append-nil w.acts), tt))

pub Quietly-act :
    {B : Type 0} (a : Act) (answer : ℕ → Result B) → is_quiet a ≡ true → Does Quietly (act a answer)
Quietly-act a answer h w = (a ∷ [], (refl, (h, tt)))

pub Quietly-pure : {B : Type 0} (b : B) → Does Quietly (pure b)
Quietly-pure b w = ([], (sym (append-nil w.acts), tt))
