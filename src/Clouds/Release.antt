-- ===== src/Clouds/Release.antt =====
-- `release_azure_resources` of helper/helper_app/azure/export.py and `release_gcp_resources` of
-- helper/helper_app/gcp/export.py: every resource that the job records is released, and the ones that could not be
-- released stay recorded. How the call for a resource ends is a parameter.
pub mod Laws
use vmware_migration_helper.Base.{
  Bool, true, false, not, ◌&&◌, ◌||◌, Option, none, some, List, [], ◌∷◌, ◌++◌, String, ◌=s=◌,
  if◌then◌else◌,
}

-- `gone` is the status 404 of Azure, and `refused` any other error.
pub data Answer : Type 0 where
  released gone refused : Answer

-- A line of the outcome.
pub data Action : Type 0 where
  ok failed : String → Action

-- `list.remove`: the first item that is equal
unfoldable pub remove : String → List String → List String
remove x [] = []
remove x (y ∷ ys) = let rest = remove x ys in if y =s= x then ys else y ∷ rest

-- What a loop does with one resource: whether it is taken off the record, and the line of the outcome.
pub record Verdict : Type 0 where
  pub taken_off : Bool
  pub line : Option Action

abbrev pub with_line : Option Action → List Action → List Action
with_line none actions = actions
with_line (some a) actions = a ∷ actions

-- `for item in list(recorded)`: the loop runs over a copy, and takes items off the record.
pub release_loop : (String → Verdict) → List String → List String → List String × List Action
release_loop judge [] recorded = (recorded, [])
release_loop judge (x ∷ items) recorded =
    let v = judge x in
    let (left, actions) =
      release_loop judge items (if v.taken_off then remove x recorded else recorded) in
    (left, with_line v.line actions)

-- Export access of Azure: a grant that is gone needs no line.
abbrev pub judge_grant : (String → Answer) → String → Verdict
judge_grant answer x = elim (answer x) [
  | released ↦ record { taken_off = true; line = some (ok x) }
  | gone ↦ record { taken_off = true; line = none }
  | refused ↦ record { taken_off = false; line = some (failed x) }
]

abbrev deleted : String → Answer → Verdict
deleted x released = record { taken_off = true; line = some (ok x) }
deleted x _ = record { taken_off = false; line = some (failed x) }

-- Snapshots of both clouds: an empty name is a place that was never filled.
abbrev pub judge_snapshot : (String → Answer) → String → Verdict
judge_snapshot answer x =
    if x =s= "" then record { taken_off = true; line = none } else deleted x (answer x)

-- Objects of Cloud Storage: an empty name is passed over, and stays.
abbrev pub judge_object : (String → Answer) → String → Verdict
judge_object answer x =
    if x =s= "" then record { taken_off = false; line = none } else deleted x (answer x)

pub record Recorded : Type 0 where
  pub exports : List String  -- `sas_granted`, or `gcs_objects`
  pub snapshots : List String  -- `snapshot_ids`, or `snapshot_names`

release : (String → Verdict) → (String → Verdict) → Recorded → Recorded × List Action
release exported snapped info =
    let (exports, first) = release_loop exported info.exports info.exports in
    let (snapshots, second) = release_loop snapped info.snapshots info.snapshots in
    (record { exports = exports; snapshots = snapshots }, first ++ second)

unfoldable pub release_azure_resources :
    (String → Answer) → (String → Answer) → Recorded → Recorded × List Action
unfolding release
release_azure_resources revoke delete info =
    release (judge_grant revoke) (judge_snapshot delete) info

unfoldable pub release_gcp_resources :
    (String → Answer) → (String → Answer) → Recorded → Recorded × List Action
unfolding release
release_gcp_resources delete_object delete_snapshot info =
    release (judge_object delete_object) (judge_snapshot delete_snapshot) info
