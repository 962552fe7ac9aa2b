-- ===== src/Alerts/Store/Reads.antt =====
-- What a read of state_store.py returns after a write.
use sen_sa.Prelude.{
  ◌&&◌, leb, if◌then◌else◌, if_ind, ℕ, ◌+◌, ◌<◌, ◌≡◌, true, false, none, some, String, arith,
}
use sen_sa.Prelude.Text.{str_eq, eq_refl}
use sen_sa.Alerts.Types.{WorkerState}
use sen_sa.Alerts.Store.Hashes.{ttl, hgetall-hset}
use sen_sa.Alerts.Store.{
  Redis, WorkerSnapshot, worker_default, get_worker_snapshot, write_worker, commit_state,
  set_pending, clear_pending,
}

get_worker_snapshot-write_self :
    (r : Redis) (now later : ℕ) (id : String) (f : WorkerSnapshot → WorkerSnapshot)
    → r.up ≡ true
    → later < now + ttl
    → get_worker_snapshot (write_worker r now id f) later id ≡ f (get_worker_snapshot r now id)
unfolding get_worker_snapshot write_worker
get_worker_snapshot-write_self r now later id f up fresh =
    ground (arith, hgetall-hset worker_default r.workers now later id id f, eq_refl id)

get_worker_snapshot-write_ne :
    (r : Redis) (now later : ℕ) (id other : String) (f : WorkerSnapshot → WorkerSnapshot)
    → str_eq id other ≡ false
    → get_worker_snapshot (write_worker r now id f) later other ≡ get_worker_snapshot r later other
unfolding get_worker_snapshot write_worker
get_worker_snapshot-write_ne r now later id other f ne =
    ground (arith, hgetall-hset worker_default r.workers now later id other f)

-- ─── workers: the key written, before its time to live is over; and any other key ───

module _ (r : Redis) (now later : ℕ) (id : String) (up : r.up ≡ true)
    (fresh : later < now + ttl) where
  pub get_worker_snapshot-commit_state :
      (state : WorkerState)
      → get_worker_snapshot (commit_state r now id state true) later id
        ≡ record { state = state; last_alarm_at = now; pending_state = none; pending_count = 0 }
  unfolding commit_state
  get_worker_snapshot-commit_state state = get_worker_snapshot-write_self r now later id _ up fresh

  pub get_worker_snapshot-set_pending :
      (state : WorkerState) (count : ℕ)
      → let s = get_worker_snapshot r now id in
        get_worker_snapshot (set_pending r now id state count) later id
        ≡ record s { pending_state = some state; pending_count = count }
  unfolding set_pending
  get_worker_snapshot-set_pending state count =
      get_worker_snapshot-write_self r now later id _ up fresh

  pub get_worker_snapshot-clear_pending :
      let s = get_worker_snapshot r now id in
      get_worker_snapshot (clear_pending r now id) later id
      ≡ record s { pending_state = none; pending_count = 0 }
  unfolding clear_pending
  get_worker_snapshot-clear_pending = get_worker_snapshot-write_self r now later id _ up fresh

module _ (r : Redis) (now later : ℕ) (id other : String) (ne : str_eq id other ≡ false) where
  pub get_worker_snapshot-commit_state_ne :
      (state : WorkerState)
      → get_worker_snapshot (commit_state r now id state true) later other
        ≡ get_worker_snapshot r later other
  unfolding commit_state
  get_worker_snapshot-commit_state_ne state = get_worker_snapshot-write_ne r now later id other _ ne

  pub get_worker_snapshot-set_pending_ne :
      (state : WorkerState) (count : ℕ)
      → get_worker_snapshot (set_pending r now id state count) later other
        ≡ get_worker_snapshot r later other
  unfolding set_pending
  get_worker_snapshot-set_pending_ne state count =
      get_worker_snapshot-write_ne r now later id other _ ne

  pub get_worker_snapshot-clear_pending_ne :
      get_worker_snapshot (clear_pending r now id) later other ≡ get_worker_snapshot r later other
  unfolding clear_pending
  get_worker_snapshot-clear_pending_ne = get_worker_snapshot-write_ne r now later id other _ ne

-- Nothing that the evaluators call changes whether Redis answers.
module _ (r : Redis) (now : ℕ) (id : String) where
  pub up-commit_state : (state : WorkerState) → (commit_state r now id state true).up ≡ r.up
  unfolding commit_state
  up-commit_state state = ground arith

  pub up-set_pending :
      (state : WorkerState) (count : ℕ) → (set_pending r now id state count).up ≡ r.up
  unfolding set_pending
  up-set_pending state count = ground arith

  pub up-clear_pending : (clear_pending r now id).up ≡ r.up
  unfolding clear_pending
  up-clear_pending = ground arith

-- A predicate of all that is stored, as a reader finds it at any instant at which Redis answers
-- again, is kept by a write that keeps it at the hash written.
abbrev pub Everywhere : (WorkerSnapshot → Type 0) → Redis → Type 0
Everywhere P r = (t : ℕ) (id : String) → P (get_worker_snapshot (record r { up = true }) t id)

get_worker_snapshot-write :
    (r : Redis) (now t : ℕ) (id other : String) (f : WorkerSnapshot → WorkerSnapshot)
    → get_worker_snapshot (record (write_worker r now id f) { up = true }) t other ≡ (
        if r.up && str_eq id other
        then (if leb (now + ttl) t then worker_default else f (get_worker_snapshot r now id))
        else get_worker_snapshot (record r { up = true }) t other)
unfolding get_worker_snapshot write_worker
get_worker_snapshot-write r now t id other f =
    ground (arith, hgetall-hset worker_default r.workers now t id other f)

Everywhere-write_worker :
    (P : WorkerSnapshot → Type 0) (r : Redis) (now : ℕ) (id : String)
    (f : WorkerSnapshot → WorkerSnapshot)
    → P worker_default
    → Everywhere P r
    → P (f (get_worker_snapshot r now id))
    → Everywhere P (write_worker r now id f)
Everywhere-write_worker P r now id f base every written t other =
    rw (get_worker_snapshot-write r now t id other f) (
      if_ind P (r.up && str_eq id other) (if_ind P (leb (now + ttl) t) base written)
        (every t other))

pub Everywhere-commit_state :
    (P : WorkerSnapshot → Type 0) (r : Redis) (now : ℕ) (id : String) (state : WorkerState)
    → P worker_default
    → Everywhere P r
    → P (record { state = state; last_alarm_at = now; pending_state = none; pending_count = 0 })
    → Everywhere P (commit_state r now id state true)
unfolding commit_state
Everywhere-commit_state P r now id state = Everywhere-write_worker P r now id _

pub Everywhere-set_pending :
    (P : WorkerSnapshot → Type 0) (r : Redis) (now : ℕ) (id : String) (state : WorkerState)
    (count : ℕ)
    → P worker_default
    → Everywhere P r
    → (let s = get_worker_snapshot r now id in
        P (record s { pending_state = some state; pending_count = count }))
    → Everywhere P (set_pending r now id state count)
unfolding set_pending
Everywhere-set_pending P r now id state count = Everywhere-write_worker P r now id _

pub Everywhere-clear_pending :
    (P : WorkerSnapshot → Type 0) (r : Redis) (now : ℕ) (id : String)
    → P worker_default
    → Everywhere P r
    → (let s = get_worker_snapshot r now id in
        P (record s { pending_state = none; pending_count = 0 }))
    → Everywhere P (clear_pending r now id)
unfolding clear_pending
Everywhere-clear_pending P r now id = Everywhere-write_worker P r now id _
