-- ===== src/Worker/Counting.antt =====
-- The counters of a job, as `ProcessJob` (worker.go) counts its items.
use mathlib.Core.List.{append-nil, append_assoc}
use google_photos_picker.Base.{
  ℕ, suc, ◌+◌, String, ◌≡◌, refl, sym, ap, ◌∙◌, Option, some, List, [], ◌∷◌, ◌++◌, length, arith,
}
use google_photos_picker.Stores.{ImportJob}
use google_photos_picker.Stores.Progress.{counted_success, counted_failure}

-- The job after so many more items: the ids of the successes, and how many failed.
abbrev pub with_items : List String → ℕ → ImportJob → ImportJob
with_items ids failures job = record job {
  completed_items = job.completed_items + length ids;
  failed_items = job.failed_items + failures;
  saved_ids = job.saved_ids ++ ids;
}

with_items-nil : (before : ImportJob) → with_items [] 0 before ≡ before
with_items-nil before =
    let completed_eq : before.completed_items + 0 ≡ before.completed_items = omega arith in
    let failed_eq : before.failed_items + 0 ≡ before.failed_items = omega arith in
    λ i. record before {
      completed_items = completed_eq i;
      failed_items = failed_eq i;
      saved_ids = append-nil before.saved_ids i;
    }

with_items-success :
    (id : String) (ids : List String) (n : ℕ) (before : ImportJob)
    → with_items ids n (counted_success id before) ≡ with_items (id ∷ ids) n before
with_items-success id ids n before =
    let completed_eq : before.completed_items + 1 + length ids
        ≡ before.completed_items + suc (length ids) =
      omega arith in
    λ i. record before {
      completed_items = completed_eq i;
      failed_items = before.failed_items + n;
      saved_ids = append_assoc before.saved_ids (id ∷ []) ids i;
    }

with_items-failure :
    (ids : List String) (n : ℕ) (before : ImportJob)
    → with_items ids n (counted_failure before) ≡ with_items ids (suc n) before
with_items-failure ids n before =
    let failed_eq : before.failed_items + 1 + n ≡ before.failed_items + suc n = omega arith in
    λ i. record before {
      completed_items = before.completed_items + length ids;
      failed_items = failed_eq i;
      saved_ids = before.saved_ids ++ ids;
    }

module _ {Item : Type 0} (From : Item → String → Type 0) where
  -- What became of the items, in order: each saved under the next of the ids, counted as a failure, or lost,
  -- which is counted as neither.
  pub data Outcomes : List Item → List String → ℕ → ℕ → Type 0 where
    none_left : Outcomes [] [] 0 0
    saved :
        (item : Item) (items : List Item) (id : String) (ids : List String) (failures lost : ℕ)
        → From item id
        → Outcomes items ids failures lost
        → Outcomes (item ∷ items) (id ∷ ids) failures lost
    counted_out :
        (item : Item) (items : List Item) (ids : List String) (failures lost : ℕ)
        → Outcomes items ids failures lost
        → Outcomes (item ∷ items) ids (suc failures) lost
    lost_out :
        (item : Item) (items : List Item) (ids : List String) (failures lost : ℕ)
        → Outcomes items ids failures lost
        → Outcomes (item ∷ items) ids failures (suc lost)

  pub length-Outcomes :
      (items : List Item) (ids : List String) (failures lost : ℕ)
      → Outcomes items ids failures lost
      → length ids + failures + lost ≡ length items
  length-Outcomes _ _ _ _ none_left = refl
  length-Outcomes _ _ _ _ (saved item items id ids f l _ rest) =
      omega (arith, length-Outcomes items ids f l rest)
  length-Outcomes _ _ _ _ (counted_out item items ids f l rest) =
      omega (arith, length-Outcomes items ids f l rest)
  length-Outcomes _ _ _ _ (lost_out item items ids f l rest) =
      omega (arith, length-Outcomes items ids f l rest)

  -- One item that was counted: a success with its id, or a failure.
  pub data CountedOnce (item : Item) (before : ImportJob) (after : Option ImportJob) : Type 0 where
    as_success :
        (saved_id : String)
        → From item saved_id
        → after ≡ some (counted_success saved_id before)
        → CountedOnce item before after
    as_failure : after ≡ some (counted_failure before) → CountedOnce item before after

  -- The job after the worker has been through the items, of which so many were lost.
  pub record IsAfter (before : ImportJob) (after : Option ImportJob) (items : List Item) (lost : ℕ)
      : Type 0 where
    pub ids : List String
    pub failures : ℕ
    pub after_eq : after ≡ some (with_items ids failures before)
    pub outcomes : Outcomes items ids failures lost

  module _ (before : ImportJob) (after : Option ImportJob) where
    pub IsAfter-none : after ≡ some before → IsAfter before after [] 0
    IsAfter-none h = record {
      ids = [];
      failures = 0;
      after_eq = h ∙ ap some (sym (with_items-nil before));
      outcomes = none_left;
    }

    module _ (item : Item) (items : List Item) (lost : ℕ) where
      pub IsAfter-success :
          (saved_id : String)
          → From item saved_id
          → IsAfter (counted_success saved_id before) after items lost
          → IsAfter before after (item ∷ items) lost
      IsAfter-success saved_id from r = record {
        ids = saved_id ∷ r.ids;
        failures = r.failures;
        after_eq = r.after_eq ∙ ap some (with_items-success saved_id r.ids r.failures before);
        outcomes = saved item items saved_id r.ids r.failures lost from r.outcomes;
      }

      pub IsAfter-failure :
          IsAfter (counted_failure before) after items lost
          → IsAfter before after (item ∷ items) lost
      IsAfter-failure r = record {
        ids = r.ids;
        failures = suc r.failures;
        after_eq = r.after_eq ∙ ap some (with_items-failure r.ids r.failures before);
        outcomes = counted_out item items r.ids r.failures lost r.outcomes;
      }

      pub IsAfter-lost :
          IsAfter before after items lost → IsAfter before after (item ∷ items) (suc lost)
      IsAfter-lost r = record {
        ids = r.ids;
        failures = r.failures;
        after_eq = r.after_eq;
        outcomes = lost_out item items r.ids r.failures lost r.outcomes;
      }
