-- ===== src/Example/Reading.antt =====
-- How the sample platform reads and prints.
use bukia_hft.Base.{◌≡◌, refl, ap, ℕ, zero, suc, some}
use bukia_hft.Base.Int.{pos, negsuc}
use bukia_hft.Platform.{ReadsBalances, ReadsAlike}
use bukia_hft.Example.{strokes, count_strokes, platform, payload}

count_strokes_lem : (n : ℕ) → count_strokes (strokes n) ≡ n
count_strokes_lem zero = refl
count_strokes_lem (suc n) = ap suc (count_strokes_lem n)

pub platform-ReadsBalances : ReadsBalances platform
platform-ReadsBalances (pos zero) = refl
platform-ReadsBalances (pos (suc n)) = ap (λ k. some (pos (suc k))) (count_strokes_lem n)
platform-ReadsBalances (negsuc n) = ap (λ k. some (negsuc k)) (count_strokes_lem n)

pub platform-ReadsAlike : ReadsAlike platform payload.amount
platform-ReadsAlike v e = e
