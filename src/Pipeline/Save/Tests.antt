-- ===== src/Pipeline/Save/Tests.antt =====
-- An example of a save.
use terraformer.Base.{◌≡◌}
use terraformer.Pipeline.Frames.{rows}
use terraformer.Pipeline.Apply.Tests.{answering, a_draft}
use terraformer.Pipeline.Save.{save_running_config}
use terraformer.Pipeline.Save.Laws.{SaveEnds, save_ends}

save_ends_example :
    (rows (save_running_config answering a_draft).1 ≡ rows a_draft)
    × (((save_running_config answering a_draft).1.sent ≡ a_draft.sent)
        × SaveEnds answering a_draft (save_running_config answering a_draft).0)
save_ends_example = save_ends answering a_draft
