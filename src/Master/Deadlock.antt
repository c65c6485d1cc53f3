-- ===== src/Master/Deadlock.antt =====
-- Mutual exclusion and progress of the master's two threads (src/master.cpp).
use aiotc.Prelude.{ℕ, zero, suc, ◌+◌, ◌≡◌, ◌↔◌, ◌⊎◌, refl, inl, inr, Bool, arith}
use aiotc.Master.Locks.{
  LoadThread, load_sleeps, polls, detaches, detached, ManagerThread, manager_sleeps, manages,
  chooses, chosen, System, Step, poll, polled, silent, detach, leave, start_managing, stop_managing,
  no_slave, choose, chose, Reach, start, later,
}

-- How many times a thread holds `mutex_slave`, and `mutex_mobj`.
abbrev load_slave : LoadThread → ℕ
load_slave load_sleeps = 0
load_slave polls = 1
load_slave detaches = 1
load_slave detached = 1

abbrev load_mobj : LoadThread → ℕ
load_mobj load_sleeps = 0
load_mobj polls = 0
load_mobj detaches = 0
load_mobj detached = 1

abbrev manager_slave : ManagerThread → ℕ
manager_slave manager_sleeps = 0
manager_slave manages = 0
manager_slave chooses = 0
manager_slave chosen = 1

abbrev manager_mobj : ManagerThread → ℕ
manager_mobj manager_sleeps = 0
manager_mobj manages = 1
manager_mobj chooses = 1
manager_mobj chosen = 1

-- A semaphore is held by one thread, or by none and its value is 1.
pub record IsExclusive (s : System) : Type 0 where
  pub by_slave : load_slave s.slave_load + manager_slave s.manager + s.mutex_slave ≡ 1
  pub by_mobj : load_mobj s.slave_load + manager_mobj s.manager + s.mutex_mobj ≡ 1

step-IsExclusive : {s t : System} → Step s t → IsExclusive s → IsExclusive t
step-IsExclusive poll h = record { by_slave = omega (arith, h.by_slave); by_mobj = h.by_mobj }
step-IsExclusive polled h = record { by_slave = omega (arith, h.by_slave); by_mobj = h.by_mobj }
step-IsExclusive silent h = record { by_slave = h.by_slave; by_mobj = h.by_mobj }
step-IsExclusive detach h = record { by_slave = h.by_slave; by_mobj = omega (arith, h.by_mobj) }
step-IsExclusive leave h = record { by_slave = h.by_slave; by_mobj = omega (arith, h.by_mobj) }
step-IsExclusive start_managing h = record {
  by_slave = h.by_slave;
  by_mobj = omega (arith, h.by_mobj);
}
step-IsExclusive stop_managing h = record {
  by_slave = h.by_slave;
  by_mobj = omega (arith, h.by_mobj);
}
step-IsExclusive no_slave h = record { by_slave = h.by_slave; by_mobj = h.by_mobj }
step-IsExclusive choose h = record { by_slave = omega (arith, h.by_slave); by_mobj = h.by_mobj }
step-IsExclusive chose h = record { by_slave = omega (arith, h.by_slave); by_mobj = h.by_mobj }

-- The two semaphores are each held by at most one of the two threads at a time, and nobody's value is
-- lost, in every state that the threads reach in any interleaving.
reach-IsExclusive : (s : System) → Reach s → IsExclusive s
reach-IsExclusive s start = record { by_slave = refl; by_mobj = refl }
reach-IsExclusive t (later {s = s} r st) = step-IsExclusive st (reach-IsExclusive s r)

-- slaveLoad holds `mutex_slave` and waits for `mutex_mobj`; mobjManager holds `mutex_mobj` and waits for
-- `mutex_slave`.
pub record IsCrossed (s : System) : Type 0 where
  pub load_waits : s.slave_load ≡ detaches
  pub manager_waits : s.manager ≡ chooses

abbrev state : LoadThread → ManagerThread → ℕ → ℕ → Bool → System
state l m a b ok = record {
  slave_load = l;
  manager = m;
  mutex_slave = a;
  mutex_mobj = b;
  slave_load_ok = ok;
}

can_move :
    (l : LoadThread) (m : ManagerThread) (a b : ℕ) (ok : Bool)
    → IsExclusive (state l m a b ok)
    → ((t : System) × Step (state l m a b ok) t) ⊎ IsCrossed (state l m a b ok)
can_move load_sleeps manager_sleeps zero b ok h = absurd (omega (arith, h.by_slave))
can_move load_sleeps manager_sleeps (suc a) b ok h = inl (_, poll)
can_move load_sleeps manages a b ok h = inl (_, stop_managing)
can_move load_sleeps chooses zero b ok h = absurd (omega (arith, h.by_slave))
can_move load_sleeps chooses (suc a) b ok h = inl (_, choose)
can_move load_sleeps chosen a b ok h = inl (_, chose)
can_move polls m a b ok h = inl (_, polled)
can_move detaches manager_sleeps a zero ok h = absurd (omega (arith, h.by_mobj))
can_move detaches manager_sleeps a (suc b) ok h = inl (_, detach)
can_move detaches manages a b ok h = inl (_, stop_managing)
can_move detaches chooses a b ok h = inr (record { load_waits = refl; manager_waits = refl })
can_move detaches chosen a b ok h = absurd (omega (arith, h.by_slave))
can_move detached m a b ok h = inl (_, leave)

crossed-stuck : {s t : System} → Step s t → IsExclusive s → IsCrossed s → ⊥
crossed-stuck poll h c = absurd (cc c.load_waits)
crossed-stuck polled h c = absurd (cc c.load_waits)
crossed-stuck silent h c = absurd (cc c.load_waits)
crossed-stuck detach h c = omega (arith, rw c.manager_waits at h.by_mobj)
crossed-stuck leave h c = absurd (cc c.load_waits)
crossed-stuck start_managing h c = absurd (cc c.manager_waits)
crossed-stuck stop_managing h c = absurd (cc c.manager_waits)
crossed-stuck no_slave h c = absurd (cc c.manager_waits)
crossed-stuck choose h c = omega (arith, rw c.load_waits at h.by_slave)
crossed-stuck chose h c = absurd (cc c.manager_waits)

-- In every state that the two threads reach, one of them at least can take a step, except exactly
-- where slaveLoad holds `mutex_slave` and waits in detachSlave for `mutex_mobj` while mobjManager holds
-- `mutex_mobj` and waits in getLowestLoadSlave for `mutex_slave`: there neither can ever go on.
pub reach-stuck : (s : System) → Reach s → ((t : System) → Step s t → ⊥) ↔ IsCrossed s
reach-stuck s r = (
  λ stuck.
      elim (can_move s.slave_load s.manager s.mutex_slave s.mutex_mobj s.slave_load_ok
        (reach-IsExclusive s r)) [ inl (t, st) ↦ absurd (stuck t st) | inr c ↦ c ],
  λ c t st. crossed-stuck st (reach-IsExclusive s r) c,
)
