-- ===== src/Shm/Free.antt =====
-- The search of getFreeShm (src/shm.cpp).
use aiotc.Prelude.{
  ◌≡◌, refl, ap, inl, inr, Bool, true, false, not, ◌&&◌, Option, none, some, List, [], ◌∷◌, ◌++◌,
  All, Bool-cases,
}
use aiotc.Cstring.{Text, strncmp_eq}
use aiotc.Slab.{Slab}
use aiotc.Shm.{ShmParam, buffer_type_size, get_free_shm}

module _ (s : Slab) (kind : Text) where
  -- A buffer of the type that nobody uses.
  abbrev pub is_free : ShmParam s.Pool → Bool
  is_free p = strncmp_eq buffer_type_size p.kind kind && not p.usedd

  abbrev pub taken : ShmParam s.Pool → ShmParam s.Pool
  taken p = record p { usedd = true }

  -- The first free buffer of the array is marked used and the others are as they were, or none is
  -- free and the array is as it was.
  pub data Takes (ps : List (ShmParam s.Pool))
      : Option (ShmParam s.Pool) × List (ShmParam s.Pool) → Type 0 where
    nothing_free : All (λ p. is_free p ≡ false) ps → Takes ps (none, ps)
    first_free :
        (before : List (ShmParam s.Pool)) (p : ShmParam s.Pool) (after : List (ShmParam s.Pool))
        → ps ≡ before ++ p ∷ after
        → All (λ p. is_free p ≡ false) before
        → is_free p ≡ true
        → Takes ps (some (taken p), before ++ taken p ∷ after)

  pass_by :
      (p : ShmParam s.Pool) {ps : List (ShmParam s.Pool)}
      {r : Option (ShmParam s.Pool) × List (ShmParam s.Pool)}
      → is_free p ≡ false
      → Takes ps r
      → Takes (p ∷ ps) (r.0, p ∷ r.1)
  pass_by p f (nothing_free all) = nothing_free (f, all)
  pass_by p f (first_free b x a e skipped t) = first_free (p ∷ b) x a (ap (◌∷◌ p) e) (f, skipped) t

  -- getFreeShm hands out the first buffer of the type that is not in use and marks it, and it hands
  -- out none only where every buffer of the type is in use; no other buffer changes.
  get_free_shm-Takes : (ps : List (ShmParam s.Pool)) → Takes ps (get_free_shm s kind ps)
  unfolding get_free_shm
  get_free_shm-Takes [] = nothing_free tt
  get_free_shm-Takes (p ∷ ps) = elim (Bool-cases (is_free p)) [
    | inl t ↦ rw t (first_free [] p ps refl tt t)
    | inr f ↦ rw f (pass_by p f (get_free_shm-Takes ps))
  ]
