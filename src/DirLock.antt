-- ===== src/DirLock.antt =====
-- src/store/dir-lock.ts: the lock file of a data directory. What the operating system says of a process
-- and the boot that a process sees are arguments; an operation takes the file and gives what it leaves.
pub mod Exclusive
mod Tests
use depix_sdk.Common.{
  ℕ, zero, suc, ◌-◌, ◌+◌, Bool, true, false, Option, none, some, if◌then◌else◌, leb, ◌==◌, ◌&&◌,
  ◌||◌, not, Result, ok, err,
}
use depix_sdk.Common.Text.{Text, text_eq}
use depix_sdk.Errors.{SdkError, wallet_dir_locked}

-- `unknown`; `linux:` and an identifier; `time:` and what follows, with the number after the last
-- colon, if it is one; or any other text.
pub data BootId : Type 0 where
  unknown_boot : BootId
  linux_boot : Text → BootId
  time_boot : Text → Option ℕ → BootId
  other_boot : Text → BootId

abbrev pub boot_text_eq : BootId → BootId → Bool
boot_text_eq unknown_boot unknown_boot = true
boot_text_eq (linux_boot a) (linux_boot b) = text_eq a b
boot_text_eq (time_boot a m) (time_boot b n) = text_eq a b
boot_text_eq (other_boot a) (other_boot b) = text_eq a b
boot_text_eq _ _ = false

-- `Math.abs(sa - sb) <= 60`.
unfoldable pub within_minute : ℕ → ℕ → Bool
within_minute a b = leb a (b + 60) && leb b (a + 60)

unfoldable pub no_other_boot : BootId → BootId → Bool
no_other_boot (linux_boot a) (linux_boot b) = false
no_other_boot (time_boot a (some m)) (time_boot b (some n)) = within_minute m n
no_other_boot _ _ = true

unfoldable pub same_boot : BootId → BootId → Bool
same_boot a b = if boot_text_eq a b then true else no_other_boot a b

-- What stands in the lock file: the process, if its line parses to a positive integer, and the boot, if
-- it has a line.
pub record LockContent : Type 0 where
  pub owner : Option ℕ
  pub boot : Option BootId

-- The lock file: missing, unreadable, or its content.
pub data LockFile : Type 0 where
  no_lock unreadable_lock : LockFile
  lock : LockContent → LockFile

-- The process that calls: its identifier and the boot that it sees, and which processes are alive.
pub record Caller : Type 0 where
  pub pid : ℕ
  pub boot_id : BootId
  pub pid_is_alive : ℕ → Bool

unfoldable pub own_content : Caller → LockContent
own_content c = record { owner = some c.pid; boot = some c.boot_id }

-- `tryCreate`: whether it made the file.
unfoldable pub try_create : Caller → LockFile → Bool × LockFile
try_create c no_lock = (true, lock (own_content c))
try_create c unreadable_lock = (false, unreadable_lock)
try_create c (lock content) = (false, lock content)

unfoldable pub boot_matches : Option BootId → BootId → Bool
boot_matches none here = true
boot_matches (some recorded) here = same_boot recorded here

unfoldable pub owner_is_live : Caller → LockContent → Bool
owner_is_live c content = elim content.owner [
  | none ↦ false
  | some pid ↦ c.pid_is_alive pid && boot_matches content.boot c.boot_id
]

unfoldable pub held_by_live_process : Caller → LockFile → Bool
held_by_live_process c no_lock = false
held_by_live_process c unreadable_lock = false
held_by_live_process c (lock content) = owner_is_live c content

-- The attempts of `acquireDirLock`: the file is made, or it is held, or it is stale and broken. Nothing
-- else touches the file meanwhile.
unfoldable pub attempts : ℕ → Caller → LockFile → Result SdkError (Unit {0}) × LockFile
attempts zero c file = (err wallet_dir_locked, file)
attempts (suc more) c file =
    let created = try_create c file in
    let retried = attempts more c no_lock in
    if created.0
    then (ok tt, created.1)
    else if held_by_live_process c file
    then (err wallet_dir_locked, file)
    else retried

-- `acquireDirLock(dataDir)`: two attempts.
unfoldable pub acquire_dir_lock : Caller → LockFile → Result SdkError (Unit {0}) × LockFile
acquire_dir_lock c file = attempts 2 c file

-- `release()`.
unfoldable pub release_dir_lock : Caller → LockFile → LockFile
release_dir_lock c no_lock = no_lock
release_dir_lock c unreadable_lock = unreadable_lock
release_dir_lock c (lock content) = elim content.owner [
  | none ↦ lock content
  | some pid ↦ if pid == c.pid then no_lock else lock content
]
