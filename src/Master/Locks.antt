-- ===== src/Master/Locks.antt =====
-- The two threads of the master that hold two semaphores at a time (src/master.cpp): slave_load_thread,
-- which polls the slaves, and master_objmanager_thread, which gives the objects to slaves. A step is
-- one thread's way to its next call of semWait or semPost, or past it. Which slaves answer, and which
-- objects have no slave, is left open.
use aiotc.Prelude.{ℕ, suc, Bool, true, false}

-- slave_load_thread: it sleeps; or it holds `mutex_slave` in slaveLoad; or a slave did not answer, and
-- it waits in detachSlave for `mutex_mobj`; or it holds both.
pub data LoadThread : Type 0 where
  load_sleeps polls detaches detached : LoadThread

-- master_objmanager_thread: it sleeps; or it holds `mutex_mobj` in mobjManager; or an object has no
-- slave, and it waits in getLowestLoadSlave for `mutex_slave`; or it holds both.
pub data ManagerThread : Type 0 where
  manager_sleeps manages chooses chosen : ManagerThread

pub record System : Type 0 where
  pub slave_load : LoadThread
  pub manager : ManagerThread
  pub mutex_slave : ℕ
  pub mutex_mobj : ℕ
  pub slave_load_ok : Bool

-- semWait passes where the semaphore is positive, and takes one off; semPost adds one.
pub data Step : System → System → Type 0 where
  -- slave_load_thread: semWait and semPost on `mutex_slave` around traverseQueue, and `slaveLoadOk`
  poll :
      {m : ManagerThread} {a b : ℕ} {ok : Bool}
      → Step
          (record {
            slave_load = load_sleeps;
            manager = m;
            mutex_slave = suc a;
            mutex_mobj = b;
            slave_load_ok = ok;
          })
          (record {
            slave_load = polls;
            manager = m;
            mutex_slave = a;
            mutex_mobj = b;
            slave_load_ok = ok;
          })
  polled :
      {m : ManagerThread} {a b : ℕ} {ok : Bool}
      → Step
          (record {
            slave_load = polls;
            manager = m;
            mutex_slave = a;
            mutex_mobj = b;
            slave_load_ok = ok;
          })
          (record {
            slave_load = load_sleeps;
            manager = m;
            mutex_slave = suc a;
            mutex_mobj = b;
            slave_load_ok = true;
          })
  -- slaveLoad, for a slave that has just stopped answering; detachSlave
  silent :
      {m : ManagerThread} {a b : ℕ} {ok : Bool}
      → Step
          (record {
            slave_load = polls;
            manager = m;
            mutex_slave = a;
            mutex_mobj = b;
            slave_load_ok = ok;
          })
          (record {
            slave_load = detaches;
            manager = m;
            mutex_slave = a;
            mutex_mobj = b;
            slave_load_ok = ok;
          })
  detach :
      {m : ManagerThread} {a b : ℕ} {ok : Bool}
      → Step
          (record {
            slave_load = detaches;
            manager = m;
            mutex_slave = a;
            mutex_mobj = suc b;
            slave_load_ok = ok;
          })
          (record {
            slave_load = detached;
            manager = m;
            mutex_slave = a;
            mutex_mobj = b;
            slave_load_ok = ok;
          })
  leave :
      {m : ManagerThread} {a b : ℕ} {ok : Bool}
      → Step
          (record {
            slave_load = detached;
            manager = m;
            mutex_slave = a;
            mutex_mobj = b;
            slave_load_ok = ok;
          })
          (record {
            slave_load = polls;
            manager = m;
            mutex_slave = a;
            mutex_mobj = suc b;
            slave_load_ok = ok;
          })
  -- master_objmanager_thread: semWait and semPost on `mutex_mobj` around traverseQueue, once
  -- `slaveLoadOk` is set
  start_managing :
      {l : LoadThread} {a b : ℕ}
      → Step
          (record {
            slave_load = l;
            manager = manager_sleeps;
            mutex_slave = a;
            mutex_mobj = suc b;
            slave_load_ok = true;
          })
          (record {
            slave_load = l;
            manager = manages;
            mutex_slave = a;
            mutex_mobj = b;
            slave_load_ok = true;
          })
  stop_managing :
      {l : LoadThread} {a b : ℕ} {ok : Bool}
      → Step
          (record {
            slave_load = l;
            manager = manages;
            mutex_slave = a;
            mutex_mobj = b;
            slave_load_ok = ok;
          })
          (record {
            slave_load = l;
            manager = manager_sleeps;
            mutex_slave = a;
            mutex_mobj = suc b;
            slave_load_ok = ok;
          })
  -- mobjManager, for an object without a slave; getLowestLoadSlave
  no_slave :
      {l : LoadThread} {a b : ℕ} {ok : Bool}
      → Step
          (record {
            slave_load = l;
            manager = manages;
            mutex_slave = a;
            mutex_mobj = b;
            slave_load_ok = ok;
          })
          (record {
            slave_load = l;
            manager = chooses;
            mutex_slave = a;
            mutex_mobj = b;
            slave_load_ok = ok;
          })
  choose :
      {l : LoadThread} {a b : ℕ} {ok : Bool}
      → Step
          (record {
            slave_load = l;
            manager = chooses;
            mutex_slave = suc a;
            mutex_mobj = b;
            slave_load_ok = ok;
          })
          (record {
            slave_load = l;
            manager = chosen;
            mutex_slave = a;
            mutex_mobj = b;
            slave_load_ok = ok;
          })
  chose :
      {l : LoadThread} {a b : ℕ} {ok : Bool}
      → Step
          (record {
            slave_load = l;
            manager = chosen;
            mutex_slave = a;
            mutex_mobj = b;
            slave_load_ok = ok;
          })
          (record {
            slave_load = l;
            manager = manages;
            mutex_slave = suc a;
            mutex_mobj = b;
            slave_load_ok = ok;
          })

-- Both semaphores are created with the value 1, and `slaveLoadOk` starts at 0.
abbrev pub init : System
init = record {
  slave_load = load_sleeps;
  manager = manager_sleeps;
  mutex_slave = 1;
  mutex_mobj = 1;
  slave_load_ok = false;
}

pub data Reach : System → Type 0 where
  start : Reach init
  later : {s t : System} → Reach s → Step s t → Reach t
