-- ===== src/Jobs.antt =====
-- A queue of BullMQ whose jobs have `attempts` (services/email.services.ts, services/audit-log.services.ts), and
-- its workers, which run several jobs at once and put off those that have failed. Which job meets the outside
-- world next is therefore left open: a run takes a list of places in the queue. A job is put back after an error
-- as long as it has attempts left, and set aside after the last one. It is given the number of attempts that are
-- left after this one, for what it meets outside may differ from one to the next.
pub mod Picks
use bukia_hft.Base.{⊤, ℕ, zero, suc, ◌+◌, List, [], ◌∷◌, ◌++◌}
use bukia_hft.Tx.{Result, ok, err}

pub record Job (A : Type 0) : Type 0 where
  pub content : A
  pub left : ℕ

pub record Queue (A S : Type 0) : Type 0 where
  pub waiting : List (Job A)
  pub stuck : List A
  pub state : S

module _ {A : Type 0} where
  -- The job at a place, or the last one, and the others.
  unfoldable pub take_at : ℕ → Job A → List (Job A) → Job A × List (Job A)
  take_at zero j js = (j, js)
  take_at (suc i) j [] = (j, [])
  take_at (suc i) j (k ∷ ks) = let (x, rest) = take_at i k ks in (x, j ∷ rest)

  abbrev pub attempts_left : List (Job A) → ℕ
  attempts_left [] = 0
  attempts_left (j ∷ js) = suc j.left + attempts_left js

module _ {A S : Type 0} where
  -- `queue.add` with a number of attempts
  unfoldable pub add_job : ℕ → A → Queue A S → Queue A S
  add_job attempts a q = elim attempts [
    | zero ↦ record q { stuck = q.stuck ++ a ∷ [] }
    | suc n ↦ record q { waiting = q.waiting ++ record { content = a; left = n } ∷ [] }
  ]

  module _ (job : ℕ → A → S → Result ⊤ × S) where
    unfoldable pub attempt : Job A → Queue A S → Queue A S
    unfolding add_job
    attempt j q =
        let (outcome, after) = job j.left j.content q.state in
        elim outcome [
          | ok done ↦ record q { state = after }
          | err e ↦ add_job j.left j.content (record q { state = after })
        ]

    unfoldable pub pick : ℕ → Queue A S → Queue A S
    unfolding attempt take_at
    pick i q = elim q.waiting [
      | [] ↦ q
      | j ∷ js ↦ let (x, rest) = take_at i j js in attempt x (record q { waiting = rest })
    ]

    unfoldable pub run_picks : List ℕ → Queue A S → Queue A S
    unfolding pick
    run_picks [] q = q
    run_picks (i ∷ is) q = run_picks is (pick i q)
