-- ===== src/Pipeline/Save.antt =====
-- changes/service.py: `save_running_config`.
pub mod Laws
pub mod Tests
use terraformer.Base.{Bool, true, false}
use terraformer.Text.{Text}
use terraformer.Errors.{change_vendor_unsupported, unsupported_capability, internal}
use terraformer.Pipeline.{Device, app, Env, Exec, ◌>>=◌, pure, raise, ask, with_connection}
use terraformer.Pipeline.Preview.{is_supported}
use terraformer.Drivers.Cisco.Save.{save_acknowledged}

-- The ValueError of a save that was not acknowledged travels as a plain AppError.
judge_save : Bool → Exec (Unit {0})
judge_save true = pure tt
judge_save false = raise (app internal)

write_and_judge : Env → Exec (Unit {0})
unfolding judge_save save_acknowledged
write_and_judge env = do output ← ask env.write_memory; judge_save (save_acknowledged output)

-- The flag tells that the driver declares the capability.
save_with : Env → Bool → Exec (Unit {0})
unfolding with_connection write_and_judge
save_with env false = raise (app unsupported_capability)
save_with env true = with_connection env (write_and_judge env)

save_on : Env → Device → Bool → Exec (Unit {0})
unfolding save_with
save_on env device false = raise (app change_vendor_unsupported)
save_on env device true = do
  level ← λ w. (env.driver device.vendor, w)
  save_with env (env.can_save device.vendor)

unfoldable pub save_running_config : Env → Exec (Unit {0})
unfolding save_on
save_running_config env = do
  device ← ask env.device
  save_on env device (is_supported device.vendor)
