-- ===== src/Postgres/Imports/Claim.antt =====
-- `ClaimNextPending` (postgres/imports.go): which job a claim takes, and what it leaves.
use google_photos_picker.Base.{
  ℕ, ◌≤◌, String, ◌≡◌, refl, Bool, true, false, Option, none, some, [], ◌∷◌, lookup, insert,
  HasUniqueKeys, Bool-cases, Option-cases, inl, inr, tests, ap, subst, sym, ◌∙◌, lookup-cons,
  lookup-tail, lookup-head, ltb, arith,
}
use mathlib.Core.Bool.{false≢true}
use google_photos_picker.Exec.{Result, ok}
use google_photos_picker.Stores.{ImportJob}
use google_photos_picker.Postgres.Imports.{
  ImportRow, ImportTable, claimable, older, oldest, start_row, job_of, claim_row,
}

module _ (locked : String → Bool) where
  -- The row is in the table, free, and no free row of the table is older.
  pub record IsOldest (id : String) (row : ImportRow) (j : ImportTable) : Type 0 where
    pub present : lookup id j ≡ some row
    pub free : claimable locked id row ≡ true
    pub first :
        (k : String) (r : ImportRow)
        → lookup k j ≡ some r
        → claimable locked k r ≡ true
        → row.created_at ≤ r.created_at

  oldest-none :
      (j : ImportTable) (k : String) (r : ImportRow)
      → oldest locked j ≡ none
      → lookup k j ≡ some r
      → claimable locked k r ≡ false
  unfolding oldest
  oldest-none [] k r h f = unfold lookup in cc
  oldest-none ((id, row) ∷ j) k r h f = elim (lookup-cons k id row r j f) [
    | inl (a, b) ↦ ground arith
    | inr later ↦ oldest-none j k r (ground arith) later
  ]

  IsOldest-head :
      (i : String) (r : ImportRow) (j : ImportTable)
      → claimable locked i r ≡ true
      → ((k : String) (s : ImportRow)
          → lookup k j ≡ some s
          → claimable locked k s ≡ true
          → r.created_at ≤ s.created_at)
      → IsOldest i r ((i, r) ∷ j)
  IsOldest-head i r j free rest = record {
    present = lookup-head i r j;
    free = free;
    first = λ k s f c. elim (lookup-cons k i r s j f) [
      | inl (a, b) ↦ rw b (omega arith)
      | inr later ↦ rest k s later c
    ];
  }

  IsOldest-tail :
      (i k : String) (r s : ImportRow) (j : ImportTable)
      → HasUniqueKeys ((i, r) ∷ j)
      → (claimable locked i r ≡ true → s.created_at ≤ r.created_at)
      → IsOldest k s j
      → IsOldest k s ((i, r) ∷ j)
  IsOldest-tail i k r s j u front o = record {
    present = lookup-tail k i r s j u o.present;
    free = o.free;
    first = λ k' s' f c. elim (lookup-cons k' i r s' j f) [
      | inl (a, b) ↦ rw (← b) (front (rw (a, b) c))
      | inr later ↦ o.first k' s' later c
    ];
  }

  -- A free row in front of the table against the oldest of the rest.
  IsOldest-older :
      (i : String) (r : ImportRow) (j : ImportTable) (o : Option (String × ImportRow))
      → HasUniqueKeys ((i, r) ∷ j)
      → claimable locked i r ≡ true
      → oldest locked j ≡ o
      → ((k : String) (s : ImportRow) → o ≡ some (k, s) → IsOldest k s j)
      → IsOldest (older o i r).0 (older o i r).1 ((i, r) ∷ j)
  IsOldest-older i r j none u free e ih =
      IsOldest-head i r j free (λ k s f c. absurd (false≢true (sym (oldest-none j k s e f) ∙ c)))
  IsOldest-older i r j (some (k, s)) u free e ih =
      let o = ih k s refl in
      elim (Bool-cases (ltb s.created_at r.created_at)) [
        | inl earlier ↦ rw earlier (IsOldest-tail i k r s j u (λ c. omega (tests)) o)
        | inr later ↦
            rw later (IsOldest-head i r j free (λ k' s' f c. omega (tests, o.first k' s' f c)))
      ]

  oldest-IsOldest :
      (j : ImportTable) (id : String) (row : ImportRow)
      → HasUniqueKeys j
      → oldest locked j ≡ some (id, row)
      → IsOldest id row j
  unfolding oldest
  oldest-IsOldest [] id row u h = cc
  oldest-IsOldest ((i, r) ∷ j) id row u h = elim (Bool-cases (claimable locked i r)) [
    | inl free ↦
        let o =
          IsOldest-older i r j (oldest locked j) u free refl
            (λ k s e. oldest-IsOldest j k s u.1 e) in
        let e : some (older (oldest locked j) i r) ≡ some (id, row) = rw free at h in
        subst (λ (w : String × ImportRow). IsOldest w.0 w.1 ((i, r) ∷ j)) (cc) o
    | inr taken ↦
        IsOldest-tail i id r row j u (λ c. absurd (false≢true (sym taken ∙ c)))
          (oldest-IsOldest j id row u.1 (rw taken at h))
  ]

-- A claim that returns a job: the job was the oldest free one, it is running now in the table and in
-- the job that comes back, and every other row is as it was.
pub record IsClaimed (locked : String → Bool) (now : ℕ) (job : ImportJob) (j j' : ImportTable)
    : Type 0 where
  pub row : ImportRow
  pub was_oldest : IsOldest locked job.id row j
  pub job_eq : job ≡ job_of job.id (start_row now row) [] ""
  pub table_eq : j' ≡ insert job.id (start_row now row) j

module _ (locked : String → Bool) (now : ℕ) (j : ImportTable) where
  claim_row_found :
      (id : String) (row : ImportRow)
      → oldest locked j ≡ some (id, row)
      → claim_row locked now j
        ≡ (ok (some (job_of id (start_row now row) [] "")), insert id (start_row now row) j)
  unfolding claim_row
  claim_row_found id row found = rw (found, claim_row)

  claim_row_empty : oldest locked j ≡ none → claim_row locked now j ≡ (ok none, j)
  unfolding claim_row
  claim_row_empty empty = rw (empty, claim_row)

  pub claim_row-some :
      (job : ImportJob)
      → HasUniqueKeys j
      → (claim_row locked now j).0 ≡ ok (some job)
      → IsClaimed locked now job j (claim_row locked now j).1
  claim_row-some job u h = elim (Option-cases (oldest locked j)) [
    | inl empty ↦ ground (arith, claim_row_empty empty)
    | inr ((id, row), found) ↦
        let ran = claim_row_found id row found in
        let e : job_of id (start_row now row) [] "" ≡ job = ground (arith, ran) in
        subst (λ b. IsClaimed locked now b j (claim_row locked now j).1) e
          (record {
            row = row;
            was_oldest = oldest-IsOldest locked j id row u found;
            job_eq = refl;
            table_eq = ap (λ (w : Result (Option ImportJob) × ImportTable). w.1) ran;
          })
  ]

  -- A claim that returns nil leaves the table alone, and no pending row of it was free.
  pub claim_row-none :
      (claim_row locked now j).0 ≡ ok none
      → ((claim_row locked now j).1 ≡ j)
        × ((k : String) (r : ImportRow) → lookup k j ≡ some r → claimable locked k r ≡ false)
  claim_row-none h = elim (Option-cases (oldest locked j)) [
    | inl empty ↦ (
      ap (λ (w : Result (Option ImportJob) × ImportTable). w.1) (claim_row_empty empty),
      λ k r f. oldest-none locked j k r empty f,
    )
    | inr ((id, row), found) ↦ absurd (ground (arith, claim_row_found id row found))
  ]
