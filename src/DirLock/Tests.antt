-- ===== src/DirLock/Tests.antt =====
-- A process that dies with the lock, and the next one that breaks it.
use depix_sdk.Common.{ℕ, ◌≡◌, refl, true, false, List, [], ◌∷◌}
use depix_sdk.Common.Text.{codes}
use depix_sdk.DirLock.{
  BootId, linux_boot, no_lock, acquire_dir_lock, attempts, try_create, held_by_live_process,
  owner_is_live, own_content, boot_matches, same_boot,
}
use depix_sdk.DirLock.Exclusive.{Machine, Event, starts, acquires, dies, run, at_most_one_holder}

abbrev boot : BootId
boot = linux_boot (codes "b1")

abbrev second_pid : ℕ
second_pid = 8

abbrev off : Machine
off = record { file = no_lock; alive = λ pid. false; holds = λ pid. false }

abbrev day : List Event
day = starts 7 ∷ acquires 7 ∷ starts 8 ∷ acquires 8 ∷ dies 7 ∷ acquires 8 ∷ []

holds_lock : (run boot day off).holds second_pid ≡ true
unfolding acquire_dir_lock attempts try_create held_by_live_process owner_is_live own_content
    boot_matches same_boot
holds_lock = refl

at_most_one_holder_example :
    (second_pid ≡ second_pid) × ((run boot day off).alive second_pid ≡ true)
at_most_one_holder_example =
    at_most_one_holder boot day off second_pid second_pid (λ pid. refl) holds_lock holds_lock
