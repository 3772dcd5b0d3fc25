-- ===== src/Worker/Once.antt =====
-- A worker (workers/transfer.worker.ts) that runs jobs one after the other, whatever their payloads.
use bukia_hft.Base.{ℕ, String, List, [], ◌∷◌}
use bukia_hft.Mail.{World}
use bukia_hft.TransferService.{Payload}
use bukia_hft.TransferService.Process.{Runtime}
use bukia_hft.TransferService.Once.{IsOnce, execute_transaction-IsOnce}
use bukia_hft.Worker.{run_job}
use bukia_hft.Worker.Keeps.{run_job-keeps}

-- The jobs of the queue, delivered in order.
unfoldable pub run_jobs : Runtime → ℕ → List Payload → World → World
run_jobs rt max_retries [] w = w
run_jobs rt max_retries (p ∷ ps) w = run_jobs rt max_retries ps (run_job rt max_retries p w).1

-- Let what happens during a backoff keep the bound. However often a key is delivered, under whatever
-- payloads, and however the jobs retry and fail, the ledger holds at most one debit row and one
-- credit row of it, and `transfer` at most one row, if there was no more before.
pub run_jobs-IsOnce :
    (rt : Runtime) (max_retries : ℕ) (key : String) (jobs : List Payload) (w : World)
    → ((ms : ℕ) (v : World) → IsOnce key v.db → IsOnce key (rt.meanwhile ms v).db)
    → IsOnce key w.db
    → IsOnce key (run_jobs rt max_retries jobs w).db
unfolding run_jobs
run_jobs-IsOnce rt max_retries key [] w kept h = h
run_jobs-IsOnce rt max_retries key (p ∷ ps) w kept h =
    run_jobs-IsOnce rt max_retries key ps (run_job rt max_retries p w).1 kept (
      run_job-keeps rt (IsOnce key) (λ q db. execute_transaction-IsOnce rt.platform q key db)
        (λ db v same k.
          rw same (record { debits = k.debits; credits = k.credits; transfers = k.transfers }))
        kept max_retries p w h)
