-- ===== src/Disk/Devices/Laws.antt =====
-- The disk that the wait finds: helper/helper_app/disk/devices.py.
use vmware_migration_helper.Base.{
  ℕ, ◌≡◌, refl, sym, ap, ◌∙◌, Bool, true, false, not, ◌&&◌, ◌||◌, List, [], ◌∷◌, ◌++◌, String,
  ◌=s=◌, eq_iff, ◌==◌, any, arith, ◌⊎◌, inl, inr, Bool-cases,
}
use vmware_migration_helper.Disk.Devices.{
  Devices, Found, found, not_found, has_path, matching, judge, conclude, wait_for_new_device,
}

-- The scan lists the path with the size.
abbrev pub lists : String → ℕ → Devices → Bool
lists path size scan = any (λ d. (d.0 =s= path) && d.1 == size) scan

abbrev has : String → List String → Bool
has path paths = any (λ p. p =s= path) paths

has-matching :
    (path : String) (before : Devices) (expected : ℕ) (now : Devices)
    → has path (matching before expected now)
      ≡ (not (has_path path before) && lists path expected now)
unfolding matching
has-matching path before expected [] = ground arith
has-matching path before expected ((p, size) ∷ now) = elim (Bool-cases (p =s= path)) [
  | inl same ↦
      rw ((eq_iff p path).0 same)
        (ground (arith, has-matching path before expected now, eq_iff path path))
  | inr other ↦ ground (arith, has-matching path before expected now, other)
]

-- In the scan the path has the size, it was not there before, and no other such disk is in the scan.
pub record IsTheNew (before : Devices) (expected : ℕ) (path : String) (scan : Devices)
    : Type 0 where
  pub listed : lists path expected scan ≡ true
  pub is_new : has_path path before ≡ false
  pub only :
      (other : String)
      → lists other expected scan ≡ true
      → has_path other before ≡ false
      → other ≡ path

-- It holds of one of the scans.
abbrev pub SomeScan : (Devices → Type 0) → List Devices → Type 0
SomeScan P [] = ⊥
SomeScan P (scan ∷ scans) = (P scan) ⊎ (SomeScan P scans)

single :
    (path : String) (before : Devices) (expected : ℕ) (scan : Devices)
    → matching before expected scan ≡ path ∷ []
    → IsTheNew before expected path scan
single path before expected scan e = record {
  listed = ground (arith, mine, has-matching path before expected scan);
  is_new = ground (arith, mine, has-matching path before expected scan);
  only = λ other h k. sym (
      (eq_iff path other).0
        (ground (arith, at_other other, has-matching other before expected scan, h, k)));
}
  where
    mine : has path (matching before expected scan) ≡ true
    mine = rw e (ground (arith, eq_iff path path))

    at_other :
        (other : String) → has other (matching before expected scan) ≡ (path =s= other || false)
    at_other other = rw e refl

judge-found :
    (path : String) (before : Devices) (expected : ℕ) (scan : Devices) (rest : Found)
    → conclude (judge (matching before expected scan)) rest ≡ found path
    → (IsTheNew before expected path scan) ⊎ (rest ≡ found path)
judge-found path before expected scan rest e = by_paths (matching before expected scan) refl e
  where
    by_paths :
        (paths : List String)
        → matching before expected scan ≡ paths
        → conclude (judge paths) rest ≡ found path
        → (IsTheNew before expected path scan) ⊎ (rest ≡ found path)
    by_paths [] m h = inr h
    by_paths (p ∷ []) m h = inl (single path before expected scan (m ∙ ap (λ q. q ∷ []) cc))
    by_paths (p ∷ q ∷ more) m h = absurd (cc h)

-- A path that `wait_for_new_device` returns was in one of its scans with the expected size, was not there
-- before, and was the only such disk of that scan.
pub wait_for_new_device-IsTheNew :
    (before : Devices) (expected : ℕ) (scans : List Devices) (last : Devices) (path : String)
    → wait_for_new_device before expected scans last ≡ found path
    → SomeScan (IsTheNew before expected path) (scans ++ last ∷ [])
unfolding wait_for_new_device
wait_for_new_device-IsTheNew before expected [] last path e =
    elim (judge-found path before expected last not_found e) [
      | inl h ↦ inl h
      | inr h ↦ absurd (cc h)
    ]
wait_for_new_device-IsTheNew before expected (now ∷ scans) last path e =
    elim (judge-found path before expected now (wait_for_new_device before expected scans last) e) [
      | inl h ↦ inl h
      | inr h ↦ inr (wait_for_new_device-IsTheNew before expected scans last path h)
    ]
