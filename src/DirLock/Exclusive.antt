-- ===== src/DirLock/Exclusive.antt =====
-- At most one live process holds the lock.
use depix_sdk.Common.{
  ℕ, ◌≡◌, refl, sym, subst, ◌∙◌, Bool, true, false, some, List, [], ◌∷◌, if◌then◌else◌, ◌==◌, ◌&&◌,
  not, Result, ok, err, Bool-cases, inl, inr, arith, ==_iff,
}
use depix_sdk.Common.Text.{text_eq_refl}
use depix_sdk.Errors.{SdkError}
use depix_sdk.DirLock.{
  BootId, unknown_boot, linux_boot, time_boot, other_boot, same_boot, LockFile, no_lock,
  unreadable_lock, lock, Caller, own_content, try_create, boot_matches, owner_is_live,
  held_by_live_process, attempts, acquire_dir_lock, release_dir_lock,
}

same_boot_refl : (b : BootId) → same_boot b b ≡ true
unfolding same_boot
same_boot_refl unknown_boot = refl
same_boot_refl (linux_boot a) = rw (text_eq_refl a) refl
same_boot_refl (time_boot a n) = rw (text_eq_refl a) refl
same_boot_refl (other_boot a) = rw (text_eq_refl a) refl

-- A machine: the lock file, which processes are alive, and which of them hold the lock. All of them see
-- one boot.
pub record Machine : Type 0 where
  pub file : LockFile
  pub alive : ℕ → Bool
  pub holds : ℕ → Bool

-- A process is started under an identifier that no live process has, or it calls, or it ends: a process
-- that dies keeps its lock file.
pub data Event : Type 0 where
  starts acquires releases dies : ℕ → Event

abbrev set : (ℕ → Bool) → ℕ → Bool → ℕ → Bool
set f pid b q = if q == pid then b else f q

module _ (boot : BootId) where
  abbrev caller : ℕ → Machine → Caller
  caller pid m = record { pid = pid; boot_id = boot; pid_is_alive = m.alive }

  abbrev pub acquired : ℕ → Machine → Result SdkError (Unit {0}) × LockFile → Machine
  acquired pid m (ok done, file) = record m { file = file; holds = set m.holds pid true }
  acquired pid m (err e, file) = record m { file = file }

  -- Only a live process calls, and only one that does not hold the lock yet acquires it.
  abbrev pub happens : Event → Machine → Machine
  happens (starts pid) m = if m.alive pid then m else record m { alive = set m.alive pid true }
  happens (acquires pid) m =
      if m.alive pid && not (m.holds pid)
      then acquired pid m (acquire_dir_lock (caller pid m) m.file)
      else m
  happens (releases pid) m =
      if m.holds pid
      then record m { file = release_dir_lock (caller pid m) m.file; holds = set m.holds pid false }
      else m
  happens (dies pid) m = record m { alive = set m.alive pid false; holds = set m.holds pid false }

  abbrev pub run : List Event → Machine → Machine
  run [] m = m
  run (e ∷ rest) m = run rest (happens e m)

  -- A holder is alive, and the file names it and the boot.
  abbrev pub IsExclusive : Machine → Type 0
  IsExclusive m =
      (pid : ℕ)
      → m.holds pid ≡ true
      → (m.alive pid ≡ true) × (m.file ≡ lock (record { owner = some pid; boot = some boot }))

  -- A live process of this boot that is named in the file is found alive.
  live_owner :
      (c : Caller) (pid : ℕ)
      → c.boot_id ≡ boot
      → c.pid_is_alive pid ≡ true
      → held_by_live_process c (lock (record { owner = some pid; boot = some boot })) ≡ true
  unfolding held_by_live_process owner_is_live boot_matches
  live_owner c pid b alive = ground (arith, b, alive, same_boot_refl boot)

  abbrev IsGranted : Caller → LockFile → Result SdkError (Unit {0}) × LockFile → Type 0
  IsGranted c file (ok done, file') =
      (file' ≡ lock (own_content c)) × (held_by_live_process c file ≡ false)
  IsGranted c file (err e, file') = file' ≡ file

  -- A call that is granted leaves its own file and found no live owner; another leaves the file.
  acquire-IsGranted : (c : Caller) (file : LockFile) → IsGranted c file (acquire_dir_lock c file)
  unfolding acquire_dir_lock attempts try_create held_by_live_process
  acquire-IsGranted c no_lock = (refl, refl)
  acquire-IsGranted c unreadable_lock = (refl, refl)
  acquire-IsGranted c (lock content) = elim (Bool-cases (owner_is_live c content)) [
    | inl live ↦ rw (live, if◌then◌else◌) refl
    | inr dead ↦ rw (dead, if◌then◌else◌) (refl, dead)
  ]

  same_owner :
      (p q : ℕ)
      → lock (record { owner = some p; boot = some boot })
        ≡ lock (record { owner = some q; boot = some boot })
      → p ≡ q
  same_owner p q h = ground arith

  set-other : (f : ℕ → Bool) (pid q : ℕ) (b : Bool) → (q == pid) ≡ false → set f pid b q ≡ f q
  set-other f pid q b n = rw (n, if◌then◌else◌) refl

  acquired-IsExclusive :
      (pid : ℕ) (m : Machine) (r : Result SdkError (Unit {0}) × LockFile)
      → m.alive pid ≡ true
      → IsExclusive m
      → IsGranted (caller pid m) m.file r
      → IsExclusive (acquired pid m r)
  unfolding own_content
  acquired-IsExclusive pid m (err e, file) alive h g q holds = ((h q holds).0, g ∙ (h q holds).1)
  acquired-IsExclusive pid m (ok done, file) alive h g q holds = elim (Bool-cases (q == pid)) [
    | inl same ↦ let e : q ≡ pid = (==_iff q pid).0 same in rw e (alive, g.0)
    | inr other ↦
        let before = h q (sym (set-other m.holds pid q true other) ∙ holds) in
        absurd (
          cc (
            live_owner (caller pid m) q refl before.0,
            subst (λ f. held_by_live_process (caller pid m) f ≡ false) before.1 g.1,
          ))
  ]

  release-IsExclusive :
      (pid : ℕ) (m : Machine) (file : LockFile)
      → m.holds pid ≡ true
      → IsExclusive m
      → IsExclusive (record m { file = file; holds = set m.holds pid false })
  release-IsExclusive pid m file mine h q holds = elim (Bool-cases (q == pid)) [
    | inl same ↦ absurd (ground (arith, same, holds))
    | inr other ↦
        let before = h q (sym (set-other m.holds pid q false other) ∙ holds) in
        let one : q ≡ pid = same_owner q pid (sym before.1 ∙ (h pid mine).1) in
        absurd (ground (arith, one, other))
  ]

  happens-IsExclusive : (e : Event) (m : Machine) → IsExclusive m → IsExclusive (happens e m)
  happens-IsExclusive (starts pid) m h = elim (Bool-cases (m.alive pid)) [
    | inl running ↦ rw (running, if◌then◌else◌) h
    | inr free ↦
        rw (free, if◌then◌else◌) (λ q holds. (ground (arith, (h q holds).0), (h q holds).1))
  ]
  happens-IsExclusive (acquires pid) m h = elim (Bool-cases (m.alive pid && not (m.holds pid))) [
    | inl may ↦
        rw (may, if◌then◌else◌)
          (acquired-IsExclusive pid m (acquire_dir_lock (caller pid m) m.file) (ground (arith, may))
            h (acquire-IsGranted (caller pid m) m.file))
    | inr barred ↦ rw (barred, if◌then◌else◌) h
  ]
  happens-IsExclusive (releases pid) m h = elim (Bool-cases (m.holds pid)) [
    | inl mine ↦ rw (mine, if◌then◌else◌) (release-IsExclusive pid m _ mine h)
    | inr none_held ↦ rw (none_held, if◌then◌else◌) h
  ]
  happens-IsExclusive (dies pid) m h = λ q holds. elim (Bool-cases (q == pid)) [
    | inl same ↦ absurd (ground (arith, same, holds))
    | inr other ↦
        let before = h q (sym (set-other m.holds pid q false other) ∙ holds) in
        (set-other m.alive pid q false other ∙ before.0, before.1)
  ]

  run-IsExclusive : (events : List Event) (m : Machine) → IsExclusive m → IsExclusive (run events m)
  run-IsExclusive [] m h = h
  run-IsExclusive (e ∷ rest) m h = run-IsExclusive rest (happens e m) (happens-IsExclusive e m h)

  -- From a machine on which nobody holds the lock, whatever file is there, through any starts, deaths,
  -- acquisitions and releases of processes that see one boot, each acquisition in one step, at most
  -- one process holds the lock, and it is alive.
  pub at_most_one_holder :
      (events : List Event) (m : Machine) (p q : ℕ)
      → ((pid : ℕ) → m.holds pid ≡ false)
      → (run events m).holds p ≡ true
      → (run events m).holds q ≡ true
      → (p ≡ q) × ((run events m).alive p ≡ true)
  at_most_one_holder events m p q free hp hq =
      let h = run-IsExclusive events m (λ pid holds. absurd (cc (free pid, holds))) in
      (same_owner p q (sym (h p hp).1 ∙ (h q hq).1), (h p hp).0)
