-- ===== src/Rest/Load.antt =====
-- Sequences of requests that a slave serves (src/rest.cpp): its queue of objects and its load.
use native.Mathlib.Nat.{div-lt_iff_lt-mul}
use aiotc.Prelude.{
  ℕ, ◌*◌, ◌/◌, ◌≤◌, ◌<◌, ◌≡◌, refl, Bool, eq_ℤ, if◌then◌else◌, true, false, Option, none, some,
  List, [], ◌∷◌, arith, ℤ, pos, ◌==◌, is_neg, lt_ℤ, inl, inr, Option-cases, ◌>>=◌,
}
use aiotc.Cstring.{Text}
use aiotc.Slab.{Slab}
use aiotc.Json.{Host, int_at, str_at}
use aiotc.Queue.{Queue}
use aiotc.Queue.Length.{IsCounted}
use aiotc.Slaves.{SlaveParam}
use aiotc.Obj.{Objs, add_obj}
use aiotc.Obj.Algs.{system_inits}
use aiotc.Rest.{
  Handler, login, logout, system_init, system_status, obj_add, obj_del, stream_start, stream_stop,
  preview_start, preview_stop, record_start, record_stop, record_play, capture_start, capture_stop,
  alg_support, task_start, task_stop, RestState, RestConfig, Served, with_system, silent,
}
use aiotc.Rest.Handlers.{
  load_percent, request_system_init, request_system_status, request_obj_add, request_obj_del,
  request_stream_start, request_stream_stop, request_preview_start, request_preview_stop,
  request_record_start, request_record_stop, request_capture_start, request_capture_stop,
  request_task_start, request_task_stop, serve,
}
use aiotc.Rest.Counts.{
  add_obj-IsCounted, del_obj-IsCounted, on_task-objs, add_alg-objs, del_alg-objs,
}

either : {A : Type 0} (P : A → Type 0) (b : Bool) (x y : A) → P x → P y → P (if b then x else y)
either P true x y px py = px
either P false x y px py = py

module _ (s : Slab) (max : ℕ) where
  -- The count of the objects is exact, there are at most `max`, and the load is at most 100.
  pub record IsServing (st : RestState s) : Type 0 where
    pub counted : IsCounted max st.objs.objs
    pub loaded : lt_ℤ (pos 100) st.load ≡ false

  -- Served with a state that is as it should be.
  abbrev Ok : Served s → Type 0
  Ok r = (out : RestState s × Option Text) × (r ≡ some out) × IsServing out.0

  silent-Ok :
      (st : RestState s) (objs : Objs s)
      → objs.objs ≡ st.objs.objs
      → IsServing st
      → Ok (silent s st objs)
  silent-Ok st objs e h = (
    (record st { objs = objs }, none),
    refl,
    record { counted = rw e h.counted; loaded = h.loaded },
  )

  same-Ok : (st : RestState s) → IsServing st → Ok (some (st, none))
  same-Ok st h = ((st, none), refl, h)

  percent_le : (n : ℕ) → 0 < max → n ≤ max → n * 100 / max ≤ 100
  percent_le n pm le =
      let lt : n * 100 / max < 101 = (div-lt_iff_lt-mul pm).1 (omega arith) in omega arith

  module _ (pm : 0 < max) (h : Host) (enable : ℤ) (slaves : Queue SlaveParam) where
    abbrev config : RestConfig
    config = record { master_enable = enable; slave_obj_max = max }

    abbrev percent : Objs s → ℤ
    percent objs = pos (objs.objs.que_len * 100 / max)

    load_percent-some :
        (st : RestState s) → load_percent s h config slaves st ≡ some (percent st.objs)
    unfolding load_percent
    load_percent-some st = let f : (max == 0) ≡ false = ground arith in rw f refl

    -- A state whose load is set to that of its objects.
    loaded-IsServing :
        (st : RestState s)
        → IsCounted max st.objs.objs
        → IsServing (record st { load = percent st.objs })
    loaded-IsServing st c = record {
      counted = c;
      loaded =
          ground (arith, percent_le st.objs.objs.que_len pm (omega (arith, c.exact, c.within)));
    }

    status-Ok : (st : RestState s) → IsServing st → Ok (request_system_status s h config slaves st)
    unfolding request_system_status
    status-Ok st c =
        rw (load_percent-some st, request_system_status)
          ((_, _), refl, loaded-IsServing st c.counted)

    add-Ok :
        (buf : Text) (st : RestState s)
        → IsServing st
        → Ok (request_obj_add s h config slaves buf st)
    unfolding request_obj_add
    add-Ok buf st c =
        let st' = record st { objs = add_obj s h slaves buf max st.objs } in
        rw (load_percent-some st', request_obj_add)
          (
            (_, _),
            refl,
            loaded-IsServing st' (add_obj-IsCounted s max h slaves buf st.objs c.counted),
          )

    init-Ok :
        (buf : Text) (st : RestState s)
        → IsServing st
        → Ok (request_system_init s h config slaves buf st)
    unfolding request_system_init
    init-Ok buf st c =
        let st' =
          if eq_ℤ enable (pos 2)
          then st
          else with_system s st (system_inits s buf (st.objs.pool, st.sys_org_data)) in
        let c' : IsServing st' =
          either IsServing (eq_ℤ enable (pos 2)) st _ c
            (record { counted = c.counted; loaded = c.loaded }) in
        (
          (_, _),
          refl,
          either IsServing (eq_ℤ st'.system_inited (pos 0)) (record st' { system_inited = pos 1 })
              st' (record { counted = c'.counted; loaded = c'.loaded }) c',
        )

    serve-Ok :
        (hd : Handler) (buf : Text) (st : RestState s)
        → IsServing st
        → Ok (serve s h config slaves hd buf st)
    unfolding serve request_obj_del request_stream_start request_stream_stop request_preview_start
        request_preview_stop request_record_start request_record_stop request_capture_start
        request_capture_stop request_task_start request_task_stop
    serve-Ok login buf st c = same-Ok st c
    serve-Ok logout buf st c = same-Ok st c
    serve-Ok system_init buf st c = init-Ok buf st c
    serve-Ok system_status buf st c = status-Ok st c
    serve-Ok obj_add buf st c = add-Ok buf st c
    serve-Ok obj_del buf st c = (
      (_, _),
      refl,
      record { counted = del_obj-IsCounted s max h buf st.objs c.counted; loaded = c.loaded },
    )
    serve-Ok stream_start buf st c = silent-Ok st _ (on_task-objs s max _ _ st.objs) c
    serve-Ok stream_stop buf st c = silent-Ok st _ (on_task-objs s max _ _ st.objs) c
    serve-Ok preview_start buf st c = elim (Option-cases (str_at h buf "type")) [
      | inl e ↦ rw (e, request_preview_start) (same-Ok st c)
      | inr (text, e) ↦
          rw (e, request_preview_start)
            (either Ok (is_neg (int_at h buf "id")) (some (st, none)) _ (same-Ok st c)
              (silent-Ok st _ (on_task-objs s max _ _ st.objs) c))
    ]
    serve-Ok preview_stop buf st c = silent-Ok st _ (on_task-objs s max _ _ st.objs) c
    serve-Ok record_start buf st c = silent-Ok st _ (on_task-objs s max _ _ st.objs) c
    serve-Ok record_stop buf st c = silent-Ok st _ (on_task-objs s max _ _ st.objs) c
    serve-Ok record_play buf st c = same-Ok st c
    serve-Ok capture_start buf st c = silent-Ok st _ (on_task-objs s max _ _ st.objs) c
    serve-Ok capture_stop buf st c = silent-Ok st _ (on_task-objs s max _ _ st.objs) c
    serve-Ok alg_support buf st c = same-Ok st c
    serve-Ok task_start buf st c = elim (Option-cases (str_at h buf "alg")) [
      | inl e ↦ rw (e, request_task_start) (same-Ok st c)
      | inr (text, e) ↦
          rw (e, request_task_start)
            (either Ok (is_neg (int_at h buf "id")) (some (st, none)) _ (same-Ok st c)
              (silent-Ok st _ (add_alg-objs s max _ _ st.objs) c))
    ]
    serve-Ok task_stop buf st c = elim (Option-cases (str_at h buf "alg")) [
      | inl e ↦ rw (e, request_task_stop) (same-Ok st c)
      | inr (text, e) ↦
          rw (e, request_task_stop)
            (either Ok (is_neg (int_at h buf "id")) (some (st, none)) _ (same-Ok st c)
              (silent-Ok st _ (del_alg-objs s max _ _ st.objs) c))
    ]

    -- The requests of a sequence, each served by its handler.
    unfoldable pub run : List (Handler × Text) → RestState s → Option (RestState s)
    run [] st = some st
    run ((hd, buf) ∷ reqs) st = do out ← serve s h config slaves hd buf st; run reqs out.0

    -- Where a slave takes at least one object, counts its objects exactly, has no more than it takes
    -- and a load of at most 100, every sequence of requests is served to its end, without a division
    -- by zero, and leaves it so.
    pub run-IsServing :
        (reqs : List (Handler × Text)) (st : RestState s)
        → IsServing st
        → (out : RestState s) × (run reqs st ≡ some out) × IsServing out
    unfolding run
    run-IsServing [] st c = (st, refl, c)
    run-IsServing ((hd, buf) ∷ reqs) st c =
        let (out, e, c') = serve-Ok hd buf st c in
        let (end, e', c'') = run-IsServing reqs out.0 c' in (end, rw e e', c'')
