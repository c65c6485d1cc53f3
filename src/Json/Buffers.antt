-- ===== src/Json/Buffers.antt =====
-- The sizes of the buffers that the getters of work/share/src/share.cpp fill.
use aiotc.Prelude.{
  ℕ, zero, suc, ◌+◌, ◌*◌, ◌/◌, ◌≤◌, ◌<◌, ◌≡◌, refl, Option, none, some, arith, if◌then◌else◌, ltb,
  length, take_all, Option-cases, inl, inr,
}
use aiotc.Cstring.{Text}
use aiotc.Json.{Host, descend, copy_string, read_ints, get_int_val_from_array}

module _ (h : Host) where
  -- Where malloc grants the buffer, getStrValFromJson's copy is the whole string, and the buffer
  -- has room for it and its terminating zero; where it does not, there is no copy.
  copy_string-whole :
      (val : Text)
      → (length val < (length val + 1) / 1024 * 1024 + 1024)
        × (copy_string h val
            ≡ (if h.malloc ((length val + 1) / 1024 * 1024 + 1024) then some val else none))
  unfolding copy_string
  copy_string-whole val =
      let room : length val < (length val + 1) / 1024 * 1024 + 1024 = omega arith in
      (room, rw (take_all ((length val + 1) / 1024 * 1024 + 1024) val (omega arith)) refl)

  length-read_ints : (p : h.Item) (n i : ℕ) → length (read_ints h p n i) ≤ n
  unfolding read_ints
  length-read_ints p zero i = omega arith
  length-read_ints p (suc n) i = ground (arith, length-read_ints p n (i + 1))

  -- getIntValFromArray writes at most `max` numbers to its caller's array.
  get_int_val_from_array_bounds :
      (buf : Text) (name1 name2 name3 : Option Text) (max : ℕ)
      → length (get_int_val_from_array h buf name1 name2 name3 max) ≤ max
  unfolding get_int_val_from_array
  get_int_val_from_array_bounds buf name1 name2 name3 max =
      elim (Option-cases (descend h buf name1 name2 name3)) [
        | inl e ↦ rw (e, get_int_val_from_array) (omega arith)
        | inr (p, e) ↦
            rw (e, get_int_val_from_array)
              (let n = if ltb (h.get_array_size p) max then h.get_array_size p else max in
                ground (arith, length-read_ints p n 0))
      ]
