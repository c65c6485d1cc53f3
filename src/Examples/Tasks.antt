-- ===== src/Examples/Tasks.antt =====
-- The laws of the beats at a task.
use aiotc.Prelude.{◌≡◌, refl, false, some, List, [], ◌∷◌, pos, arith}
use aiotc.Cstring.{codes}
use aiotc.Obj.{TaskParams, cleared_task}
use aiotc.Beats.{rtsp_proc_beat, rtsp_task_beat}
use aiotc.Beats.Protocol.{
  Step, wants, proc_beats, task_beats, live, perform, proc_beat, task_beat, runs, step, run,
  managers, preview, GoesOn, run-GoesOn, run-perform, run-leaves,
}

abbrev steps : List Step
steps =
    wants (pos 1) (pos 0) (codes "hls")
    ∷ task_beats 100 (omega arith)
    ∷ proc_beats 105
    ∷ task_beats 140 (omega arith)
    ∷ wants (pos 0) (pos 0) []
    ∷ task_beats 141 (omega arith)
    ∷ []

run-perform_example :
    perform (run live steps cleared_task).0 (runs live cleared_task)
    ≡ some (runs live (run live steps cleared_task).1)
run-perform_example = run-perform live steps cleared_task refl

run-leaves_example : perform (run live steps cleared_task).0 false ≡ some false
unfolding run step proc_beat task_beat rtsp_proc_beat rtsp_task_beat
run-leaves_example = run-leaves live steps cleared_task 145 refl refl

abbrev busy : TaskParams
busy = record cleared_task {
  livestream = pos 1;
  live_task_beat = pos 100;
  capture = pos 1;
  capture_task_beat = pos 100;
  preview = codes "hls";
  preview_task_beat = pos 100;
}

-- The process of the preview falls silent at 100 and is asked for again at 200; other tasks end.
abbrev silent : List Step
silent =
    task_beats 140 (omega arith)
    ∷ wants (pos 0) (pos 0) (codes "hls")
    ∷ managers 200
    ∷ proc_beats 205
    ∷ task_beats 300 (omega arith)
    ∷ []

run-GoesOn_example : GoesOn preview (run preview silent busy)
run-GoesOn_example =
    run-GoesOn preview silent busy (λ e. cc) (refl, (refl, (refl, (refl, (refl, tt))))) refl refl
