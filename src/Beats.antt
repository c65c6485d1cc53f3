-- ===== src/Beats.antt =====
-- The heart beats of an object's tasks: rtspProcBeat and rtspTaskBeat (src/rtsp/rtsp.cpp),
-- previewProcBeat and previwTaskBeat (src/preview/preview.cpp), gat1400ProcBeat and gat1400TaskBeat
-- (src/gat1400/gat1400.cpp), and objManager of src/main.cpp, on the object's taskParams at a time
-- `now`. The calls of the process's `start` and `stop` are the actions of a step.
pub mod Protocol
use aiotc.Prelude.{
  ℕ, ◌+◌, Bool, true, false, not, ◌&&◌, List, [], ◌∷◌, ◌++◌, ℤ, pos, negsuc, succ, eq_ℤ, lt_ℤ, ltb,
  if◌then◌else◌,
}
use aiotc.Cstring.{Text, codes}
use aiotc.Obj.{TaskParams}

pub data Action : Type 0 where
  start stop : Action

-- `if(value)` on an `int`
abbrev pub is_set : ℤ → Bool
is_set v = not (eq_ℤ v (pos 0))

abbrev pub is_text : Text → Bool
is_text [] = false
is_text (c ∷ cs) = true

-- `now - beat > limit`
abbrev pub is_late : ℕ → ℤ → ℕ → Bool
is_late now (pos b) limit = ltb (b + limit) now
is_late now (negsuc b) limit = ltb limit (now + b + 1)

-- TASK_BEAT_TIMEOUT and PROC_BEAT_TIMEOUT
abbrev pub task_beat_timeout : ℕ
task_beat_timeout = 30

abbrev pub proc_beat_timeout : ℕ
proc_beat_timeout = 20

-- rtspProcBeat: whether the object leaves the process, and the task.
unfoldable pub rtsp_proc_beat : ℕ → TaskParams → Bool × TaskParams
rtsp_proc_beat now t =
    if is_set t.livestream
    then (false, record t { live_beat = pos now })
    else if eq_ℤ t.live_task_beat (pos 0)
    then (true, record t { live_beat = pos 0 })
    else (false, t)

-- rtspTaskBeat
unfoldable pub rtsp_task_beat : ℕ → TaskParams → List Action × TaskParams
rtsp_task_beat now t =
    if is_set t.livestream
    then (if eq_ℤ t.live_task_beat (pos 0)
        then (start ∷ [], record t { live_task_beat = pos now })
        else if is_late now t.live_task_beat task_beat_timeout
        then (
          stop ∷ start ∷ [],
          record t { live_restart = succ t.live_restart; live_task_beat = pos now },
        )
        else ([], t))
    else if lt_ℤ (pos 0) t.live_task_beat
    then (stop ∷ [], record t { live_task_beat = pos 0 })
    else ([], t)

-- previewProcBeat
unfoldable pub preview_proc_beat : ℕ → TaskParams → Bool × TaskParams
preview_proc_beat now t =
    if is_text t.preview
    then (false, record t { preview_beat = pos now })
    else if eq_ℤ t.preview_task_beat (pos 0)
    then (true, record t { preview_beat = pos 0 })
    else (false, t)

-- previwTaskBeat
unfoldable pub preview_task_beat : ℕ → TaskParams → List Action × TaskParams
preview_task_beat now t =
    if is_text t.preview
    then (if eq_ℤ t.preview_task_beat (pos 0)
        then (start ∷ [], record t { preview_task_beat = pos now })
        else if is_late now t.preview_task_beat task_beat_timeout
        then ([], record t { preview_task_beat = pos now })
        else ([], t))
    else if lt_ℤ (pos 0) t.preview_task_beat
    then (stop ∷ [], record t { preview_task_beat = pos 0 })
    else ([], t)

-- gat1400ProcBeat
unfoldable pub gat1400_proc_beat : ℕ → TaskParams → Bool × TaskParams
gat1400_proc_beat now t =
    if is_set t.capture
    then (false, record t { capture_beat = pos now })
    else if eq_ℤ t.capture_task_beat (pos 0)
    then (true, record t { capture_beat = pos 0 })
    else (false, t)

-- gat1400TaskBeat
unfoldable pub gat1400_task_beat : ℕ → TaskParams → List Action × TaskParams
gat1400_task_beat now t =
    if is_set t.capture
    then (if eq_ℤ t.capture_task_beat (pos 0)
        then (start ∷ [], record t { capture_task_beat = pos now })
        else if is_late now t.capture_task_beat task_beat_timeout
        then ([], record t { capture_task_beat = pos now })
        else ([], t))
    else if lt_ℤ (pos 0) t.capture_task_beat
    then (stop ∷ [], record t { capture_task_beat = pos 0 })
    else ([], t)

-- objManager: the names of the tasks that startObjTask is called for, in their order.
abbrev pub when_late : Bool → ℕ → ℤ → Text → List Text
when_late wanted now beat name =
    if wanted && is_late now beat proc_beat_timeout then name ∷ [] else []

abbrev pub beat_after : Bool → ℕ → ℤ → ℤ
beat_after wanted now beat = if wanted && is_late now beat proc_beat_timeout then pos now else beat

unfoldable pub obj_manager : ℕ → TaskParams → List Text × TaskParams
obj_manager now t = (
  when_late (is_set t.livestream) now t.live_beat (codes "live")
      ++ when_late (is_set t.capture) now t.capture_beat (codes "capture")
      ++ when_late (is_set t.recording) now t.record_beat (codes "record")
      ++ when_late (is_text t.preview) now t.preview_beat (codes "preview"),
  record t {
    live_beat = beat_after (is_set t.livestream) now t.live_beat;
    capture_beat = beat_after (is_set t.capture) now t.capture_beat;
    record_beat = beat_after (is_set t.recording) now t.record_beat;
    preview_beat = beat_after (is_text t.preview) now t.preview_beat;
  },
)
