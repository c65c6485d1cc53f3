-- ===== src/Hls.antt =====
-- The segment files of a stream for browsers (delOldTs of src/preview/hls.cpp), over the files that
-- ffmpeg (work/ffmpeg) writes: its play list and its segments play0.ts, play1.ts and so on.
pub mod Window
use aiotc.Prelude.{
  ℕ, zero, suc, ◌+◌, ◌-◌, ◌*◌, Bool, true, false, not, ◌&&◌, ◌||◌, Option, none, some, List, [],
  ◌∷◌, ltb, leb, ◌==◌, if◌then◌else◌, length, take, ◌>>=◌,
}
use aiotc.Cstring.{Text, codes, starts_with}
use aiotc.Ipc.{read_number}

-- The segments by their numbers, with their sizes; the play list; and the two counters of
-- previewParams.
pub record HlsState : Type 0 where
  pub files : ℕ → Option ℕ
  pub m3u8 : Option Text
  pub last_ts_num : ℕ
  pub last_ts_same_cnt : ℕ

abbrev pub hls_list_num : ℕ
hls_list_num = 2

abbrev rev_onto : Text → Text → Text
rev_onto [] ys = ys
rev_onto (x ∷ xs) ys = rev_onto xs (x ∷ ys)

abbrev drop : ℕ → Text → Text
drop zero xs = xs
drop (suc n) [] = []
drop (suc n) (x ∷ xs) = drop n xs

-- The walk back to the end of the line before, with `try_cnt` steps left: `before` is what stands
-- before `p1`, reversed, and `line` what stands behind it.
unfoldable pub walk_back : (try_cnt : ℕ) → (before line : Text) → Option Text
walk_back zero before line = none
walk_back (suc try_cnt) [] line = none
walk_back (suc try_cnt) (c ∷ before) line =
    let rest = walk_back try_cnt before (c ∷ line) in if c == 13 || c == 10 then some line else rest

-- The text before the first ".ts".
unfoldable pub before_ts : Text → Option Text
unfolding starts_with
before_ts [] = none
before_ts (c ∷ cs) =
    let rest = before_ts cs in
    if starts_with (codes ".ts") (c ∷ cs) then some [] else (do t ← rest; some (c ∷ t))

abbrev last_line : Text → Option Text
last_line [] = none
last_line (c ∷ before) = walk_back 48 before (c ∷ [])

-- The number of the last segment in the play list, of which up to 512 bytes are read.
unfoldable pub latest_num : Text → Option ℕ
unfolding walk_back before_ts read_number
latest_num m3u8 =
    let buf = take 512 m3u8 in
    if ltb 64 (length buf)
    then (do
      line ← last_line (rev_onto buf [])
      num ← before_ts (drop 4 line)
      some (read_number 0 num))
    else none

-- `access` and `remove`
abbrev pub remove : (ℕ → Option ℕ) → ℕ → ℕ → Option ℕ
remove files n m = if m == n then none else files m

-- The loop from `j` over segments behind the play list, with `count` rounds left.
unfoldable pub del_behind : (count j latest : ℕ) → (ℕ → Option ℕ) → ℕ → Option ℕ
del_behind zero j latest files = files
del_behind (suc count) j latest files =
    let rest = del_behind count (suc j) latest (remove files (latest - hls_list_num - j)) in
    if leb (hls_list_num + j) latest then rest else files

abbrev pub size_max : ℕ
size_max = 20000000

abbrev pub is_large : Option ℕ → Bool
is_large none = false
is_large (some size) = ltb size_max size

-- The loop over three segments from number `n` on, which removes those that are too large.
unfoldable pub del_large : (count n : ℕ) → (ℕ → Option ℕ) → ℕ → Option ℕ
del_large zero n files = files
del_large (suc count) n files =
    del_large count (suc n) (if is_large (files n) then remove files n else files)

-- The count of calls that find the same last segment; after 60 of them the play list is removed.
abbrev count_same : ℕ → HlsState → HlsState
count_same latest st =
    if not (latest == st.last_ts_num)
    then record st { last_ts_num = latest; last_ts_same_cnt = 0 }
    else if ltb 60 (st.last_ts_same_cnt + 1)
    then record st { m3u8 = none; last_ts_same_cnt = 0 }
    else record st { last_ts_same_cnt = st.last_ts_same_cnt + 1 }

-- What delOldTs does once it knows the last segment.
unfoldable pub del_at : ℕ → HlsState → HlsState
unfolding del_behind del_large
del_at latest st =
    let behind = if ltb 5 latest then del_behind 5 1 latest st.files else st.files in
    record (count_same latest st) { files = del_large 3 latest behind }

-- Nothing is done where the play list is short or has no segment.
abbrev pub clean_at : Option ℕ → HlsState → HlsState
clean_at none st = st
clean_at (some latest) st = del_at latest st

-- delOldTs
unfoldable pub del_old_ts : HlsState → HlsState
del_old_ts st = elim st.m3u8 [
  | none ↦ record st { files = del_large 3 0 st.files }
  | some text ↦ clean_at (latest_num text) st
]
