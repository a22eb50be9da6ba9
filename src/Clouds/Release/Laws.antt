-- ===== src/Clouds/Release/Laws.antt =====
-- What a release leaves on the record: helper/helper_app/azure/export.py and gcp/export.py.
use vmware_migration_helper.Base.{
  ◌≡◌, refl, sym, ap, ◌∙◌, Bool, true, false, not, ◌&&◌, ◌||◌, List, [], ◌∷◌, ◌++◌, append_assoc,
  String, ◌=s=◌, eq_iff, if◌then◌else◌, All, All-append, Bool-cases, inl, inr, arith,
}
use vmware_migration_helper.Clouds.Release.{
  Answer, released, refused, Verdict, remove, release_loop, judge_grant, judge_snapshot,
  judge_object, Recorded, release_azure_resources, release_gcp_resources,
}

-- The items that a test keeps.
pub keep_if : (String → Bool) → List String → List String
keep_if test [] = []
keep_if test (x ∷ xs) = let rest = keep_if test xs in if test x then x ∷ rest else rest

remove-append :
    (x : String) (kept items : List String)
    → All (λ k. k =s= x ≡ false) kept
    → remove x (kept ++ x ∷ items) ≡ kept ++ items
unfolding remove
remove-append x [] items h = rw ((eq_iff x x).1 refl) refl
remove-append x (k ∷ kept) items h = rw h.0 (ap (λ l. k ∷ l) (remove-append x kept items h.1))

module _ (judge : String → Verdict) where
  apart :
      (x : String) (kept : List String)
      → (judge x).taken_off ≡ true
      → All (λ k. (judge k).taken_off ≡ false) kept
      → All (λ k. k =s= x ≡ false) kept
  apart x [] e h = tt
  apart x (k ∷ kept) e h = (ground (arith, eq_iff k x, h.0, e), apart x kept e h.1)

  release_loop_lem :
      (kept items : List String)
      → All (λ k. (judge k).taken_off ≡ false) kept
      → (release_loop judge items (kept ++ items)).0
        ≡ kept ++ keep_if (λ x. not (judge x).taken_off) items
  unfolding release_loop keep_if
  release_loop_lem kept [] h = refl
  release_loop_lem kept (x ∷ items) h = elim (Bool-cases (judge x).taken_off) [
    | inl off ↦
        rw (off, remove-append x kept items (apart x kept off h)) (release_loop_lem kept items h)
    | inr stays ↦
        let front = append_assoc kept (x ∷ []) items in
        let back = append_assoc kept (x ∷ []) (keep_if (λ y. not (judge y).taken_off) items) in
        rw stays (
          ap (λ l. (release_loop judge items l).0) (sym front)
          ∙ release_loop_lem (kept ++ x ∷ []) items
              (All-append (λ k. (judge k).taken_off ≡ false) kept (x ∷ []) h (stays, tt))
          ∙ back)
  ]

keep_if_same :
    (p q : String → Bool)
    → ((x : String) → p x ≡ q x)
    → (xs : List String) → keep_if p xs ≡ keep_if q xs
unfolding keep_if
keep_if_same p q same [] = refl
keep_if_same p q same (x ∷ xs) = rw (same x, keep_if_same p q same xs) refl

-- Whether the answer leaves the resource on the record: a grant that is gone does not, and an item that is not
-- deleted does.
abbrev pub is_refused : Answer → Bool
is_refused refused = true
is_refused _ = false

abbrev pub is_kept : Answer → Bool
is_kept released = false
is_kept _ = true

grant_lem :
    (answer : String → Answer) (x : String)
    → not (judge_grant answer x).taken_off ≡ is_refused (answer x)
grant_lem answer x = ground arith

snapshot_lem :
    (answer : String → Answer) (x : String)
    → not (judge_snapshot answer x).taken_off ≡ (not (x =s= "") && is_kept (answer x))
snapshot_lem answer x = ground arith

object_lem :
    (answer : String → Answer) (x : String)
    → not (judge_object answer x).taken_off ≡ (x =s= "" || is_kept (answer x))
object_lem answer x = ground arith

-- `release_azure_resources` leaves on the job exactly the exports whose revocation was refused, and the
-- snapshots with a name that were not deleted, in their order.
pub release_azure_resources_lem :
    (revoke delete : String → Answer) (info : Recorded)
    → let left = (release_azure_resources revoke delete info).0 in
      (left.exports ≡ keep_if (λ x. is_refused (revoke x)) info.exports)
      × (left.snapshots ≡ keep_if (λ x. not (x =s= "") && is_kept (delete x)) info.snapshots)
unfolding release_azure_resources
release_azure_resources_lem revoke delete info = (
  release_loop_lem (judge_grant revoke) [] info.exports tt
      ∙ keep_if_same _ _ (grant_lem revoke) info.exports,
  release_loop_lem (judge_snapshot delete) [] info.snapshots tt
      ∙ keep_if_same _ _ (snapshot_lem delete) info.snapshots,
)

-- `release_gcp_resources` leaves on the job exactly the objects that were not deleted and the empty names among
-- them, and the snapshots with a name that were not deleted, in their order.
pub release_gcp_resources_lem :
    (delete_object delete_snapshot : String → Answer) (info : Recorded)
    → let left = (release_gcp_resources delete_object delete_snapshot info).0 in
      (left.exports ≡ keep_if (λ x. x =s= "" || is_kept (delete_object x)) info.exports)
      × (left.snapshots
          ≡ keep_if (λ x. not (x =s= "") && is_kept (delete_snapshot x)) info.snapshots)
unfolding release_gcp_resources
release_gcp_resources_lem delete_object delete_snapshot info = (
  release_loop_lem (judge_object delete_object) [] info.exports tt
      ∙ keep_if_same _ _ (object_lem delete_object) info.exports,
  release_loop_lem (judge_snapshot delete_snapshot) [] info.snapshots tt
      ∙ keep_if_same _ _ (snapshot_lem delete_snapshot) info.snapshots,
)
