-- ===== src/Beats/Protocol.antt =====
-- The actions of the beats (src/rtsp, src/preview, src/gat1400) through sequences of steps.
use aiotc.Prelude.{
  ℕ, ◌<◌, ◌≡◌, ◌≢◌, refl, ap, ◌∙◌, All, Bool, true, false, not, Option, none, some, List, [], ◌∷◌,
  ◌++◌, ℤ, pos, negsuc, eq_ℤ, lt_ℤ, arith,
}
use aiotc.Cstring.{Text}
use aiotc.Obj.{TaskParams}
use aiotc.Beats.{
  Action, start, stop, rtsp_proc_beat, rtsp_task_beat, preview_proc_beat, preview_task_beat,
  gat1400_proc_beat, gat1400_task_beat, obj_manager, is_set, is_text,
}

-- Whether the task runs after some actions: none where it is started running or stopped stopped.
unfoldable pub perform : List Action → Bool → Option Bool
perform [] running = some running
perform (start ∷ rest) false = perform rest true
perform (start ∷ rest) true = none
perform (stop ∷ rest) true = perform rest false
perform (stop ∷ rest) false = none

-- The three tasks that have beats.
pub data Kind : Type 0 where
  live preview capture : Kind

unfoldable pub proc_beat : Kind → ℕ → TaskParams → Bool × TaskParams
proc_beat live = rtsp_proc_beat
proc_beat preview = preview_proc_beat
proc_beat capture = gat1400_proc_beat

unfoldable pub task_beat : Kind → ℕ → TaskParams → List Action × TaskParams
task_beat live = rtsp_task_beat
task_beat preview = preview_task_beat
task_beat capture = gat1400_task_beat

-- The time of the task's last beat, which is 0 where it does not run.
abbrev pub beat_of : Kind → TaskParams → ℤ
beat_of live t = t.live_task_beat
beat_of preview t = t.preview_task_beat
beat_of capture t = t.capture_task_beat

abbrev pub runs : Kind → TaskParams → Bool
runs k t = not (eq_ℤ (beat_of k t) (pos 0))

-- A request changes what is wanted; the two beat threads call their functions, at positive times; and
-- objManager of the slave's main process, which looks for tasks whose process is late.
pub data Step : Type 0 where
  wants : (livestream capture : ℤ) → (preview : Text) → Step
  proc_beats : ℕ → Step
  task_beats : (now : ℕ) → 0 < now → Step
  managers : ℕ → Step

unfoldable pub step : Kind → Step → TaskParams → List Action × TaskParams
unfolding proc_beat task_beat obj_manager
step k (wants l c p) t = ([], record t { livestream = l; capture = c; preview = p })
step k (proc_beats now) t = ([], (proc_beat k now t).1)
step k (task_beats now pn) t = task_beat k now t
step k (managers now) t = ([], (obj_manager now t).1)

unfoldable pub run : Kind → List Step → TaskParams → List Action × TaskParams
unfolding step
run k [] t = ([], t)
run k (c ∷ cs) t = let now = step k c t in let later = run k cs now.1 in (now.0 ++ later.0, later.1)

-- The beat is no time below 0, and the actions of the step lead to the state that it shows.
abbrev Follows : Kind → TaskParams → List Action × TaskParams → Type 0
Follows k t out =
    (lt_ℤ (beat_of k out.1) (pos 0) ≡ false) × (perform out.0 (runs k t) ≡ some (runs k out.1))

proc_beat-Follows :
    (k : Kind) (now : ℕ) (t : TaskParams)
    → lt_ℤ (beat_of k t) (pos 0) ≡ false
    → Follows k t ([], (proc_beat k now t).1)
unfolding proc_beat rtsp_proc_beat preview_proc_beat gat1400_proc_beat perform
proc_beat-Follows live now t h = ground arith
proc_beat-Follows preview now t h = ground arith
proc_beat-Follows capture now t h = ground arith

positive : (z : ℤ) → lt_ℤ z (pos 0) ≡ false → lt_ℤ (pos 0) z ≡ not (eq_ℤ z (pos 0))
positive (pos n) h = ground arith
positive (negsuc n) h = cc

task_beat-Follows :
    (k : Kind) (now : ℕ) (t : TaskParams)
    → 0 < now
    → lt_ℤ (beat_of k t) (pos 0) ≡ false
    → Follows k t (task_beat k now t)
unfolding task_beat rtsp_task_beat preview_task_beat gat1400_task_beat perform
task_beat-Follows live now t pn h = ground (arith, positive t.live_task_beat h)
task_beat-Follows preview now t pn h = ground (arith, positive t.preview_task_beat h)
task_beat-Follows capture now t pn h = ground (arith, positive t.capture_task_beat h)

perform-append :
    (xs ys : List Action) (b c : Bool) → perform xs b ≡ some c → perform (xs ++ ys) b ≡ perform ys c
unfolding perform
perform-append [] ys b c e = ground arith
perform-append (start ∷ xs) ys false c e = perform-append xs ys true c e
perform-append (start ∷ xs) ys true c e = absurd (ground arith)
perform-append (stop ∷ xs) ys true c e = perform-append xs ys false c e
perform-append (stop ∷ xs) ys false c e = absurd (ground arith)

step-Follows :
    (k : Kind) (c : Step) (t : TaskParams)
    → lt_ℤ (beat_of k t) (pos 0) ≡ false
    → Follows k t (step k c t)
unfolding step perform obj_manager
step-Follows live (wants l c p) t h = (h, refl)
step-Follows preview (wants l c p) t h = (h, refl)
step-Follows capture (wants l c p) t h = (h, refl)
step-Follows k (proc_beats now) t h = proc_beat-Follows k now t h
step-Follows k (task_beats now pn) t h = task_beat-Follows k now t pn h
step-Follows live (managers now) t h = (h, refl)
step-Follows preview (managers now) t h = (h, refl)
step-Follows capture (managers now) t h = (h, refl)

-- Through every sequence of requests, beats and passes of objManager from a task whose beat is not
-- negative, each of the
-- three tasks is started only while it is stopped and stopped only while it runs, and at the end it
-- runs exactly if its last beat is not 0; it is taken to run at first exactly if its beat is not 0.
pub run-perform :
    (k : Kind) (cs : List Step) (t : TaskParams)
    → lt_ℤ (beat_of k t) (pos 0) ≡ false
    → perform (run k cs t).0 (runs k t) ≡ some (runs k (run k cs t).1)
unfolding run perform
run-perform k [] t h = refl
run-perform k (c ∷ cs) t h =
    let f = step-Follows k c t h in
    perform-append (step k c t).0 (run k cs (step k c t).1).0 (runs k t) _ f.1
    ∙ run-perform k cs (step k c t).1 f.0

proc_beat-stopped :
    (k : Kind) (now : ℕ) (t : TaskParams) → (proc_beat k now t).0 ≡ true → runs k t ≡ false
unfolding proc_beat rtsp_proc_beat preview_proc_beat gat1400_proc_beat
proc_beat-stopped live now t e = ground arith
proc_beat-stopped preview now t e = ground arith
proc_beat-stopped capture now t e = ground arith

-- After every sequence of requests, beats and passes of objManager from a task that is stopped, an object that the next
-- proc beat takes from its process has no task running there.
pub run-leaves :
    (k : Kind) (cs : List Step) (t : TaskParams) (now : ℕ)
    → beat_of k t ≡ pos 0
    → (proc_beat k now (run k cs t).1).0 ≡ true
    → perform (run k cs t).0 false ≡ some false
run-leaves k cs t now z leaves =
    let e = run-perform k cs t (ground arith) in
    let stopped = proc_beat-stopped k now (run k cs t).1 leaves in ground (arith, e, stopped)

-- Whether the task is wanted, and whether a step leaves it wanted.
abbrev pub is_wanted : Kind → TaskParams → Bool
is_wanted live t = is_set t.livestream
is_wanted preview t = is_text t.preview
is_wanted capture t = is_set t.capture

abbrev pub keeps_wanted : Kind → Step → Bool
keeps_wanted live (wants l c p) = is_set l
keeps_wanted preview (wants l c p) = is_text p
keeps_wanted capture (wants l c p) = is_set c
keeps_wanted k (proc_beats now) = true
keeps_wanted k (task_beats now pn) = true
keeps_wanted k (managers now) = true

-- A preview or a capture that goes on without an action.
abbrev pub GoesOn : Kind → List Action × TaskParams → Type 0
GoesOn k out = (out.0 ≡ []) × (is_wanted k out.1 ≡ true) × (runs k out.1 ≡ true)

step-GoesOn :
    (k : Kind) (c : Step) (t : TaskParams)
    → k ≢ live
    → keeps_wanted k c ≡ true
    → is_wanted k t ≡ true
    → runs k t ≡ true
    → GoesOn k (step k c t)
unfolding step proc_beat task_beat preview_proc_beat gat1400_proc_beat preview_task_beat
    gat1400_task_beat obj_manager
step-GoesOn live c t other keeps w r = absurd (other refl)
step-GoesOn preview (wants l c p) t other keeps w r = (refl, keeps, r)
step-GoesOn capture (wants l c p) t other keeps w r = (refl, keeps, r)
step-GoesOn preview (proc_beats now) t other keeps w r = ground arith
step-GoesOn capture (proc_beats now) t other keeps w r = ground arith
step-GoesOn preview (task_beats now pn) t other keeps w r = ground arith
step-GoesOn capture (task_beats now pn) t other keeps w r = ground arith
step-GoesOn preview (managers now) t other keeps w r = (refl, w, r)
step-GoesOn capture (managers now) t other keeps w r = (refl, w, r)

-- A preview or a capture that is wanted and taken to run, and stays wanted, is neither started nor
-- stopped again in any sequence of requests, beats and passes of objManager, however late its beats
-- are and however often objManager asks for its process; and it is taken to run throughout.
pub run-GoesOn :
    (k : Kind) (cs : List Step) (t : TaskParams)
    → k ≢ live
    → All (λ c. keeps_wanted k c ≡ true) cs
    → is_wanted k t ≡ true
    → runs k t ≡ true
    → GoesOn k (run k cs t)
unfolding run
run-GoesOn k [] t other keeps w r = (refl, w, r)
run-GoesOn k (c ∷ cs) t other keeps w r =
    let (e, w', r') = step-GoesOn k c t other keeps.0 w r in
    let (e', w'', r'') = run-GoesOn k cs (step k c t).1 other keeps.1 w' r' in
    (ap (λ xs. xs ++ (run k cs (step k c t).1).0) e ∙ e', w'', r'')
