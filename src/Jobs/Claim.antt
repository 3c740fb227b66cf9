-- ===== src/Jobs/Claim.antt =====
-- What `claim` takes.
use mathlib.Core.Path.{subst}
use mathlib.Core.List.{Memᴰ}
use open_blog.Base.{
  leb, eq_of_some, ℕ, ◌≡◌, refl, ◌≤◌, ◌⊎◌, inl, inr, ◌↔◌, true, false, Option, none, some, List, [],
  ◌∷◌, any, All, update_where, arith, Bool-cases, Option-cases,
}
use open_blog.Store.Errors.{Error, ok, err}
use open_blog.Store.Rows.{Db, JobRow}
use open_blog.Jobs.Queue.{is_due, next_due, earlier, has_id, claim, claim_row, claimed}

module _ (now : ℕ) (locked : List ℕ) where
  -- The row is not due, or is due no earlier than `j`.
  abbrev pub IsBehind : JobRow → JobRow → Type 0
  IsBehind j k = (is_due now locked k ≡ false) ⊎ (j.run_after ≤ k.run_after)

  -- A due row that no due row precedes.
  abbrev pub IsNext : List JobRow → JobRow → Type 0
  IsNext js j = Memᴰ j js × (is_due now locked j ≡ true) × All (IsBehind j) js

  next_due-none :
      (js : List JobRow) → next_due now locked js ≡ none → any (is_due now locked) js ≡ false
  unfolding next_due
  next_due-none [] h = refl
  next_due-none (j ∷ js) h = ground (arith, next_due-none js)

  next_due_due :
      (js : List JobRow) (k : JobRow)
      → next_due now locked js ≡ some k
      → any (is_due now locked) js ≡ true
  unfolding next_due
  next_due_due [] k e = cc
  next_due_due (j ∷ js) k e = ground (arith, next_due_due js k)

  All-IsBehind-none :
      (j : JobRow) (js : List JobRow) → any (is_due now locked) js ≡ false → All (IsBehind j) js
  All-IsBehind-none j [] h = tt
  All-IsBehind-none j (k ∷ js) h = (inl (ground arith), All-IsBehind-none j js (ground arith))

  All-IsBehind-le :
      (j k : JobRow) (js : List JobRow)
      → j.run_after ≤ k.run_after
      → All (IsBehind k) js
      → All (IsBehind j) js
  All-IsBehind-le j k [] h a = tt
  All-IsBehind-le j k (i ∷ js) h (b, a) = (ground arith, All-IsBehind-le j k js h a)

  first :
      (k : JobRow) (js : List JobRow) (j : JobRow)
      → is_due now locked k ≡ true
      → next_due now locked js ≡ none
      → some k ≡ some j
      → IsNext (k ∷ js) j
  first k js j due e h =
      subst (IsNext (k ∷ js)) (eq_of_some h)
        (Memᴰ.head refl, due, (inr (omega arith), All-IsBehind-none k js (next_due-none js e)))

  split :
      (k : JobRow) (js : List JobRow) (i j : JobRow)
      → is_due now locked k ≡ true
      → IsNext js i
      → some (earlier k (some i)) ≡ some j
      → IsNext (k ∷ js) j
  split k js i j due (m, d, a) h = elim (Bool-cases (leb k.run_after i.run_after)) [
    | inl le ↦
        subst (IsNext (k ∷ js)) (eq_of_some (rw le at h))
          (Memᴰ.head refl, due, (inr (omega arith), All-IsBehind-le k i js (ground arith) a))
    | inr gt ↦
        subst (IsNext (k ∷ js)) (eq_of_some (rw gt at h)) (Memᴰ.tail m, d, (inr (ground arith), a))
  ]

  next_due_sound : (js : List JobRow) (j : JobRow) → next_due now locked js ≡ some j → IsNext js j
  unfolding next_due
  next_due_sound [] j h = absurd (cc)
  next_due_sound (k ∷ js) j h = elim (Bool-cases (is_due now locked k)) [
    | inl due ↦ elim (Option-cases (next_due now locked js)) [
      | inl e ↦ first k js j due e (rw (due, e, next_due) at h)
      | inr (i, e) ↦ split k js i j due (next_due_sound js i e) (rw (due, e, next_due) at h)
    ]
    | inr idle ↦
        let (m, d, a) = next_due_sound js j (rw idle at h) in (Memᴰ.tail m, d, (inl idle, a))
  ]

  -- `claim` takes a row of the table that is queued, due and not locked, and that no other such row
  -- precedes; it becomes running with one more attempt and a lease, and the rows with another id stay.
  pub claim-IsNext :
      (db : Db) (j : JobRow) (db' : Db)
      → claim now locked db ≡ ok (j, db')
      → (k : JobRow) × IsNext db.jobs k
        × (j ≡ claimed now k)
        × (db' ≡ record db { jobs = update_where (has_id k.id) (claimed now) db.jobs })
  unfolding claim
  claim-IsNext db j db' h = elim (Option-cases (next_due now locked db.jobs)) [
    | inl e ↦ absurd (cc)
    | inr (k, e) ↦
        let h' : claim_row now db (some k) ≡ ok (j, db') = rw e at h in
        (k, next_due_sound db.jobs k e, ground arith, ground arith)
  ]

  -- `claim` reports that there is no job exactly when no row is due.
  pub claim-no_job :
      (db : Db)
      → (claim now locked db ≡ err Error.no_job) ↔ (any (is_due now locked) db.jobs ≡ false)
  unfolding claim
  claim-no_job db = no_job_at (next_due now locked db.jobs) refl
    where
      no_job_at :
          (o : Option JobRow)
          → next_due now locked db.jobs ≡ o
          → (claim_row now db o ≡ err Error.no_job) ↔ (any (is_due now locked) db.jobs ≡ false)
      no_job_at none e = ((λ _. next_due-none db.jobs e), λ _. refl)
      no_job_at (some k) e = ((λ h. ground arith), λ h. cc (next_due_due db.jobs k e))
