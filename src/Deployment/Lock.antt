-- ===== src/Deployment/Lock.antt =====
-- `_state_lock` of ai_workflow/deployment_state.py: a directory beside the state file, which one process
-- makes and removes, and which another may take over when it is old and its owner is gone. What the
-- operating system answers during one operation is a `World`. Of failing disks only the one that takes no
-- audit event is modelled.
use ai_workflow_control_plan.Common.{
  ℕ, ◌*◌, ◌-◌, Bool, true, false, not, ◌&&◌, Option, none, some, List, String, str_eq, leb,
  if◌then◌else◌, Result, ok, err,
}
use ai_workflow_control_plan.Common.Int.{ℤ, lt_ℤ}
use ai_workflow_control_plan.Deployment.Types.{Stage, HistoryEntry, State}
use ai_workflow_control_plan.Deployment.Transition.{TransitionError}

-- `owner.json` of a lock; an entry of another type is missing.
pub record Owner : Type 0 where
  pub token : Option String
  pub pid : Option ℤ
  pub host_fingerprint : Option String

-- A lock directory, with the time of its last change in microseconds.
pub record Lock : Type 0 where
  pub changed_at : ℕ
  pub owner : Option Owner

-- One file of `events`. Its name is made of the generation, the start of the policy's name, and the
-- stage; none of the first and the last holds a dash, so the parts can be told from the name.
pub record AuditEvent : Type 0 where
  pub policy_prefix : String
  pub policy_id : String
  pub generation : ℕ
  pub stage : Stage
  pub updated_at : String
  pub state_sha256 : String
  pub history_tail : Option HistoryEntry

-- What is in the state file: a JSON object, or something else.
pub data Content : Type 0 where
  state : State → Content
  not_a_state : Content

-- The directory of the state file. `events_refused` says that no event can be written, because `events`
-- cannot be made or takes no new file.
pub record Disk : Type 0 where
  pub directory : Bool
  pub state_file : Option Content
  pub lock : Option Lock
  pub events : List AuditEvent
  pub events_refused : Bool

-- How `os.kill(pid, 0)` ends.
pub data Probe : Type 0 where
  delivered no_process not_permitted other_failure : Probe

-- `taken` is the lock that another process makes right after this one has removed a stale lock.
pub record World : Type 0 where
  pub is_windows : Bool
  pub now : ℕ
  pub pid : ℤ
  pub host : String
  pub token : String
  pub kill : ℤ → Probe
  pub rename_fails : Bool
  pub taken : Option Lock

pub data FileError : Type 0 where
  locked no_directory no_state_file not_an_object : FileError
  verification_failed generation_changed : FileError
  invalid_state already_exists event_exists event_not_written no_history : FileError
  not_moved : TransitionError → FileError

-- What an operation returns or raises, and the directory that it leaves.
abbrev pub Outcome : Type 0 → Type 0
Outcome A = Result FileError A × Disk

-- `STATE_LOCK_LEASE_SECONDS`, in microseconds.
abbrev pub lease : ℕ
lease = 300 * 1000000

-- `_pid_is_alive`
pid_is_alive : World → ℤ → Option Bool
pid_is_alive w pid =
    if w.is_windows then none else if not (lt_ℤ 0 pid) then some false else elim (w.kill pid) [
      | delivered ↦ some true
      | no_process ↦ some false
      | not_permitted ↦ some true
      | other_failure ↦ none
    ]

-- `value is True`
abbrev pub is_true : Option Bool → Bool
is_true none = false
is_true (some b) = b

abbrev pub is_same : Option String → String → Bool
is_same none s = false
is_same (some t) s = str_eq t s

-- The lock belongs to a process of this host that is alive.
unfoldable pub is_held : World → Option Owner → Bool
unfolding pid_is_alive
is_held w none = false
is_held w (some owner) =
    is_same owner.host_fingerprint w.host
    && elim owner.pid [ none ↦ false | some pid ↦ is_true (pid_is_alive w pid) ]

-- `_recover_stale_lock`: whether it renames the lock away, and so removes it.
unfoldable pub recover_stale_lock : World → Lock → Bool
unfolding is_held
recover_stale_lock w lock =
    if leb (w.now - lock.changed_at) lease
    then false
    else not (is_held w lock.owner) && not w.rename_fails

abbrev pub own_lock : World → Lock
own_lock w = record {
  changed_at = w.now;
  owner = some (record { token = some w.token; pid = some w.pid; host_fingerprint = some w.host });
}

-- The second attempt, after another process may have been faster.
abbrev pub retry : World → Disk → Outcome (Unit {0})
retry w disk = elim w.taken [
  | none ↦ (ok tt, record disk { lock = some (own_lock w) })
  | some other ↦ (err locked, record disk { lock = some other })
]

-- The two attempts to make the lock.
unfoldable pub acquire : World → Disk → Outcome (Unit {0})
unfolding recover_stale_lock
acquire w disk = if not disk.directory then (err no_directory, disk) else elim disk.lock [
  | none ↦ (ok tt, record disk { lock = some (own_lock w) })
  | some lock ↦ if recover_stale_lock w lock then retry w disk else (err locked, disk)
]

-- The token in the lock's `owner.json`.
abbrev pub token_of : Lock → Option String
token_of lock = elim lock.owner [ none ↦ none | some owner ↦ owner.token ]

-- The `finally` branch: only a lock with this operation's own token is removed.
unfoldable pub release : String → Disk → Disk
release token disk = elim disk.lock [
  | none ↦ disk
  | some lock ↦ if is_same (token_of lock) token then record disk { lock = none } else disk
]

unfoldable pub finish : {A : Type 0} → World → Outcome A → Outcome A
unfolding release
finish w (result, disk) = (result, release w.token disk)

unfoldable pub held : {A : Type 0} → World → (Disk → Outcome A) → Outcome (Unit {0}) → Outcome A
unfolding finish
held w body (err e, disk) = (err e, disk)
held w body (ok done, disk) = finish w (body disk)

-- `with _state_lock(path): body`
unfoldable pub with_state_lock : {A : Type 0} → World → Disk → (Disk → Outcome A) → Outcome A
unfolding held acquire
with_state_lock w disk body = held w body (acquire w disk)
