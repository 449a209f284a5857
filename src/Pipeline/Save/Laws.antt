-- ===== src/Pipeline/Save/Laws.antt =====
-- What a save of the running configuration leaves alone, and when it returns.
use terraformer.Base.{ℕ, suc, ◌≡◌, refl, ap, Bool, true, false, List}
use terraformer.Text.{Text}
use terraformer.Pipeline.{Device, Outcome, returned, raised, Env, World, pure, raise, ask}
use terraformer.Pipeline.Frames.{
  Rows, rows, Keeps, Keeps-ask, Keeps-bind, Keeps-with_connection, bind-returned,
  with_connection-returned,
}
use terraformer.Drivers.Cisco.Save.{save_acknowledged}
use terraformer.Drivers.Cisco.Save.Acknowledged.{SaysOk, save_acknowledged-SaysOk}
use terraformer.Pipeline.Save.{judge_save, write_and_judge, save_with, save_on, save_running_config}

abbrev everything : World → Rows × List (List Text)
everything w = (rows w, w.sent)

judge_save-Keeps : (b : Bool) → Keeps everything (judge_save b)
unfolding judge_save pure raise
judge_save-Keeps true = record { at = λ w. refl }
judge_save-Keeps false = record { at = λ w. refl }

write_and_judge-Keeps : (env : Env) → Keeps everything (write_and_judge env)
unfolding write_and_judge
write_and_judge-Keeps env =
    Keeps-bind everything (λ w n. refl) _ _ (Keeps-ask everything (λ w n. refl) env.write_memory)
      λ output. judge_save-Keeps (save_acknowledged output)

save_with-Keeps : (env : Env) (b : Bool) → Keeps everything (save_with env b)
unfolding save_with raise
save_with-Keeps env false = record { at = λ w. refl }
save_with-Keeps env true =
    Keeps-with_connection everything (λ w n. refl) env _ (write_and_judge-Keeps env)

save_on-Keeps : (env : Env) (device : Device) (b : Bool) → Keeps everything (save_on env device b)
unfolding save_on raise
save_on-Keeps env device false = record { at = λ w. refl }
save_on-Keeps env device true =
    Keeps-bind everything (λ w n. refl) _ _ (record { at = λ w. refl })
      λ level. save_with-Keeps env _

save-Keeps : (env : Env) → Keeps everything (save_running_config env)
unfolding save_running_config
save-Keeps env =
    Keeps-bind everything (λ w n. refl) _ _ (Keeps-ask everything (λ w n. refl) env.device)
      λ device. save_on-Keeps env device _

-- What the device printed at this call says that the save is done.
abbrev pub Acknowledged : Env → ℕ → Type 0
Acknowledged env n = (output : Text) × ((env.write_memory n ≡ returned output) × SaysOk output)

judge_save-true : (b : Bool) (w : World) → (judge_save b w).0 ≡ returned tt → b ≡ true
unfolding judge_save pure raise
judge_save-true true w h = refl
judge_save-true false w h = cc h

write_and_judge-Acknowledged :
    (env : Env) (w : World) → (write_and_judge env w).0 ≡ returned tt → Acknowledged env w.clock
unfolding write_and_judge ask
write_and_judge-Acknowledged env w h =
    let (output, (printed, judged)) = bind-returned _ _ w tt h in
    (output, (printed, save_acknowledged-SaysOk output (judge_save-true _ _ judged)))

save_with-Acknowledged :
    (env : Env) (b : Bool) (w : World)
    → (save_with env b w).0 ≡ returned tt
    → Acknowledged env (suc w.clock)
unfolding save_with raise
save_with-Acknowledged env false w h = cc h
save_with-Acknowledged env true w h =
    write_and_judge-Acknowledged env _ (with_connection-returned env (write_and_judge env) w tt h)

save_on-Acknowledged :
    (env : Env) (device : Device) (b : Bool) (w : World)
    → (save_on env device b w).0 ≡ returned tt
    → Acknowledged env (suc w.clock)
unfolding save_on raise
save_on-Acknowledged env device false w h = cc h
save_on-Acknowledged env device true w h =
    let (level, (_, rest)) = bind-returned _ _ w tt h in save_with-Acknowledged env _ w rest

-- How a save ends, apart from what it leaves alone: the third call to the outside is `write memory`.
abbrev pub SaveEnds : Env → World → Outcome (Unit {0}) → Type 0
SaveEnds env w (returned u) = Acknowledged env (suc (suc w.clock))
SaveEnds env w (raised e) = Unit

SaveEnds_lem :
    (env : Env) (w : World) (o : Outcome (Unit {0}))
    → (o ≡ returned tt → Acknowledged env (suc (suc w.clock)))
    → SaveEnds env w o
SaveEnds_lem env w (returned u) k = k refl
SaveEnds_lem env w (raised e) k = tt

-- A save changes no row and hands no batch to the driver, whatever happens; and if it returns, what the
-- device printed to `write memory` holds `[OK]`, and no line of it starts with `%` after white space.
pub save_ends :
    (env : Env) (w : World)
    → (rows (save_running_config env w).1 ≡ rows w)
      × (((save_running_config env w).1.sent ≡ w.sent)
          × SaveEnds env w (save_running_config env w).0)
unfolding save_running_config ask
save_ends env w =
    let kept = (save-Keeps env).at w in
    (
      ap (λ (q : Rows × List (List Text)). q.0) kept,
      (
        ap (λ (q : Rows × List (List Text)). q.1) kept,
        SaveEnds_lem env w _ λ h.
            let (device, (_, rest)) = bind-returned _ _ w tt h in
            save_on-Acknowledged env device _ _ rest,
      ),
    )
