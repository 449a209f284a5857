-- ===== src/Pipeline/Checks/Padded.antt =====
-- The post-check of a description with white space at its ends.
use terraformer.Base.{◌≡◌, ◌≢◌, refl, ap, subst, false, Option, none, some, Bool-cases, inl, inr}
use terraformer.Text.{Text, strip, same}
use terraformer.Text.Strip.{IsTrimmed}
use terraformer.Text.Ends.{same→eq}
use terraformer.Models.{interface_description}
use terraformer.Drivers.Facts.{InterfaceFacts, ChangeContext}
use terraformer.Drivers.Cisco.Render.Commands.{Given}
use terraformer.Pipeline.Checks.{text_is, described, post_check_ok}

text_is-trimmed :
    (o : Option Text) (s : Text) → Given IsTrimmed o → strip s ≢ s → text_is o s ≡ false
text_is-trimmed none s h n = refl
text_is-trimmed (some r) s h n = elim (Bool-cases (same r s)) [
  | inl e ↦ absurd (n (subst IsTrimmed (same→eq r s e) h))
  | inr e ↦ e
]

described-trimmed :
    (o : Option InterfaceFacts) (s : Text)
    → Given (λ i. Given IsTrimmed i.description) o
    → strip s ≢ s
    → described o s ≡ false
described-trimmed none s h n = refl
described-trimmed (some i) s h n = text_is-trimmed i.description s h n

-- A description with white space at an end never passes its post-check, if the descriptions that are
-- read back have none.
pub padded_never_confirmed :
    (target desired : Text) (context : ChangeContext)
    → Given (λ i. Given IsTrimmed i.description) context.interface
    → strip desired ≢ desired
    → post_check_ok interface_description target desired context ≡ some false
unfolding post_check_ok
padded_never_confirmed target desired context h n =
    ap some (described-trimmed context.interface desired h n)
