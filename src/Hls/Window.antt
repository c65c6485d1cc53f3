-- ===== src/Hls/Window.antt =====
-- Which segments delOldTs leaves (src/preview/hls.cpp).
use aiotc.Prelude.{
  ℕ, zero, suc, ◌+◌, ◌-◌, ◌≤◌, ◌<◌, ◌≡◌, ap, ◌∙◌, ◌&&◌, Option, none, some, List, [], ◌∷◌, arith,
  ltb, leb, ◌==◌, if◌then◌else◌, inl, inr, Bool-cases, ◌>>=◌,
}
use aiotc.Cstring.{Text}
use aiotc.Hls.{
  HlsState, hls_list_num, remove, is_large, latest_num, del_behind, del_large, del_at, clean_at,
  del_old_ts,
}

-- The loop removes `count` segments, as far as there are so many numbers.
del_behind-at :
    (count j latest : ℕ) (files : ℕ → Option ℕ) (n : ℕ)
    → del_behind count j latest files n ≡ (
        if leb (n + hls_list_num + j) latest && ltb latest (n + hls_list_num + j + count)
        then none
        else files n)
unfolding del_behind
del_behind-at zero j latest files n = ground arith
del_behind-at (suc count) j latest files n = elim (Bool-cases (leb (hls_list_num + j) latest)) [
  | inl e ↦ rw e (
      rw (del_behind-at count (suc j) latest (remove files (latest - hls_list_num - j)) n)
        (ground arith))
  | inr e ↦ rw e (ground arith)
]

del_large-at :
    (count k : ℕ) (files : ℕ → Option ℕ) (n : ℕ)
    → del_large count k files n
      ≡ (if leb k n && ltb n (k + count) && is_large (files n) then none else files n)
unfolding del_large
del_large-at zero k files n = ground arith
del_large-at (suc count) k files n = elim (Bool-cases (is_large (files k))) [
  | inl e ↦ rw e (
      rw (del_large-at count (suc k) (remove files k) n)
        (ground (arith, λ (same : n ≡ k). ap (λ m. is_large (files m)) same ∙ e)))
  | inr e ↦ rw e (
      rw (del_large-at count (suc k) files n)
        (ground (arith, λ (same : n ≡ k). ap (λ m. is_large (files m)) same ∙ e)))
]

-- What delOldTs leaves of a segment, where the play list ends with segment `latest`.
abbrev pub left : ℕ → (ℕ → Option ℕ) → ℕ → Option ℕ
left latest files n =
    if ltb 5 latest && (leb (n + 3) latest && ltb latest (n + 8))
    then none
    else if leb latest n && (ltb n (latest + 3) && is_large (files n))
    then none
    else files n

pub del_at-left :
    (latest : ℕ) (st : HlsState) (n : ℕ) → (del_at latest st).files n ≡ left latest st.files n
unfolding del_at
del_at-left latest st n = elim (Bool-cases (ltb 5 latest)) [
  | inl e ↦ rw e (
      rw (del_large-at 3 latest (del_behind 5 1 latest st.files) n)
        (rw (del_behind-at 5 1 latest st.files n) (ground arith)))
  | inr e ↦ rw e (rw (del_large-at 3 latest st.files n) (ground arith))
]

-- Between the calls of delOldTs ffmpeg writes segments and play lists.
pub data Step : Type 0 where
  writes : (n size : ℕ) → Step
  lists : Option Text → Step
  cleans : Step

unfoldable pub step : Step → HlsState → HlsState
step (writes n size) st = record st { files = λ m. if m == n then some size else st.files m }
step (lists m3u8) st = record st { m3u8 = m3u8 }
step cleans st = del_old_ts st

unfoldable pub run : List Step → HlsState → HlsState
unfolding step
run [] st = st
run (a ∷ steps) st = run steps (step a st)

-- The last segment that delOldTs finds in the play list.
abbrev pub found : HlsState → Option ℕ
found st = do m3u8 ← st.m3u8; latest_num m3u8

-- The first segment that may still be there after delOldTs, where it was `floor` before.
abbrev max : ℕ → ℕ → ℕ
max a b = if ltb a b then b else a

abbrev raised : ℕ → Option ℕ → ℕ
raised floor none = floor
raised floor (some latest) = if ltb 5 latest then max floor (latest - hls_list_num) else floor

unfoldable pub floor_after : List Step → HlsState → (floor : ℕ) → ℕ
unfolding step
floor_after [] st floor = floor
floor_after (writes n size ∷ steps) st floor = floor_after steps (step (writes n size) st) floor
floor_after (lists m3u8 ∷ steps) st floor = floor_after steps (step (lists m3u8) st) floor
floor_after (cleans ∷ steps) st floor = floor_after steps (step cleans st) (raised floor (found st))

-- ffmpeg writes no segment below `floor`, and delOldTs is called before seven segments have come.
abbrev IsInTime : ℕ → Option ℕ → Type 0
IsInTime floor none = Unit
IsInTime floor (some latest) = latest ≤ floor + 7

unfoldable pub KeepsPace : List Step → HlsState → (floor : ℕ) → Type 0
unfolding step
KeepsPace [] st floor = Unit
KeepsPace (writes n size ∷ steps) st floor =
    (floor ≤ n) × KeepsPace steps (step (writes n size) st) floor
KeepsPace (lists m3u8 ∷ steps) st floor = KeepsPace steps (step (lists m3u8) st) floor
KeepsPace (cleans ∷ steps) st floor =
    IsInTime floor (found st) × KeepsPace steps (step cleans st) (raised floor (found st))

-- No segment below `floor` is there.
abbrev pub IsSwept : ℕ → HlsState → Type 0
IsSwept floor st = (n : ℕ) → n < floor → st.files n ≡ none

abbrev state : (ℕ → Option ℕ) → Option Text → (num cnt : ℕ) → HlsState
state files m3u8 num cnt = record {
  files = files;
  m3u8 = m3u8;
  last_ts_num = num;
  last_ts_same_cnt = cnt;
}

del_at-IsSwept :
    (floor latest : ℕ) (st : HlsState)
    → IsSwept floor st
    → latest ≤ floor + 7
    → IsSwept (raised floor (some latest)) (del_at latest st)
del_at-IsSwept floor latest st h le n lt = rw (del_at-left latest st n) (ground (arith, h n))

clean_at-IsSwept :
    (floor : ℕ) (o : Option ℕ) (st : HlsState)
    → IsSwept floor st
    → IsInTime floor o
    → IsSwept (raised floor o) (clean_at o st)
clean_at-IsSwept floor none st h t = h
clean_at-IsSwept floor (some latest) st h t = del_at-IsSwept floor latest st h t

del_old_ts-IsSwept :
    (floor : ℕ) (files : ℕ → Option ℕ) (m3u8 : Option Text) (num cnt : ℕ)
    → IsSwept floor (state files m3u8 num cnt)
    → IsInTime floor (found (state files m3u8 num cnt))
    → IsSwept
        (raised floor (found (state files m3u8 num cnt)))
        (del_old_ts (state files m3u8 num cnt))
unfolding del_old_ts
del_old_ts-IsSwept floor files none num cnt h t =
    λ n lt. rw (del_large-at 3 0 files n) (ground (arith, h n))
del_old_ts-IsSwept floor files (some text) num cnt h t =
    clean_at-IsSwept floor (latest_num text) (state files (some text) num cnt) h t

-- Through every sequence in which ffmpeg writes no segment below the first one that may be left, and in
-- which delOldTs is called before the last segment of the play list is more than seven above that one,
-- no segment below it is there: a call that finds the last segment `latest`, above 5, raises it to
-- `latest - 2`, so that the segments do not pile up.
pub run-IsSwept :
    (steps : List Step) (st : HlsState) (floor : ℕ)
    → IsSwept floor st
    → KeepsPace steps st floor
    → IsSwept (floor_after steps st floor) (run steps st)
unfolding run floor_after KeepsPace
run-IsSwept [] st floor h k = h
run-IsSwept (writes n size ∷ steps) st floor h k =
    run-IsSwept steps (step (writes n size) st) floor
      (unfold step in λ m lt. ground (arith, h m, k.0)) k.1
run-IsSwept (lists m3u8 ∷ steps) st floor h k =
    run-IsSwept steps (step (lists m3u8) st) floor (unfold step in h) k
run-IsSwept (cleans ∷ steps) st floor h k =
    run-IsSwept steps (step cleans st) (raised floor (found st))
      (unfold step in
        del_old_ts-IsSwept floor st.files st.m3u8 st.last_ts_num st.last_ts_same_cnt h k.0)
      k.1
