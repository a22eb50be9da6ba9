-- ===== src/Disk/Devices.antt =====
-- `wait_for_new_device` of helper/helper_app/disk/devices.py. A scan is the list of the disks with their sizes;
-- the scans that the wait makes before its deadline, and the one at the deadline, are arguments.
pub mod Laws
use vmware_migration_helper.Base.{
  ℕ, Bool, true, false, not, ◌&&◌, ◌||◌, List, [], ◌∷◌, String, ◌=s=◌, ◌==◌, if◌then◌else◌, any,
}

abbrev pub Devices : Type 0
Devices = List (String × ℕ)

-- The two errors are `RuntimeError`s: several new disks of the size, and none until the deadline.
pub data Found : Type 0 where
  found : String → Found
  ambiguous not_found : Found

-- `path in before`
abbrev pub has_path : String → Devices → Bool
has_path path devices = any (λ d. d.0 =s= path) devices

-- The paths of the disks that are not in `before` and have the size.
unfoldable pub matching : Devices → ℕ → Devices → List String
matching before expected [] = []
matching before expected ((path, size) ∷ now) =
    let rest = matching before expected now in
    if not (has_path path before) && size == expected then path ∷ rest else rest

-- One round; a single match ends the wait, several raise.
pub data Round : Type 0 where
  wait_on : Round
  ends : Found → Round

abbrev pub judge : List String → Round
judge [] = wait_on
judge (path ∷ []) = ends (found path)
judge (path ∷ other ∷ more) = ends ambiguous

abbrev pub conclude : Round → Found → Found
conclude wait_on rest = rest
conclude (ends f) rest = f

unfoldable pub wait_for_new_device : Devices → ℕ → List Devices → Devices → Found
wait_for_new_device before expected [] last =
    conclude (judge (matching before expected last)) not_found
wait_for_new_device before expected (now ∷ scans) last =
    conclude (judge (matching before expected now)) (wait_for_new_device before expected scans last)
