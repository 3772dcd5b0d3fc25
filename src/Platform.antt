-- ===== src/Platform.antt =====
-- What the service takes from outside its own sources. Amounts are integers of the smallest
-- decimal that is kept, in place of JavaScript's doubles and Postgres's numerics; NaN is `none`.
use bukia_hft.Base.{ℕ, String, Option, ◌≡◌, some}
use bukia_hft.Base.Int.{ℤ}

pub record Platform : Type 0 where
  -- Postgres: the value of a numeric literal, or 22P02; the text in which a numeric comes back
  pub numeric : String → Option ℤ
  pub numeric_text : ℤ → String
  -- JavaScript: `parseFloat` and `Number` of a text, and a product
  pub parse_float : String → Option ℤ
  pub to_number : String → Option ℤ
  pub times : Option ℤ → ℕ → Option ℤ
  -- the exchange rate service: the rate 1, and the rate of a pair if the request succeeds
  pub unit_rate : ℕ
  pub conversion_rate : String → String → Option ℕ

-- `parseFloat` reads back the text in which the database returns a balance.
abbrev pub ReadsBalances : Platform → Type 0
ReadsBalances p = (v : ℤ) → p.parse_float (p.numeric_text v) ≡ some v

-- The service and the database read a text alike, as they do a plain decimal literal.
abbrev pub ReadsAlike : Platform → String → Type 0
ReadsAlike p s = (v : ℤ) → p.numeric s ≡ some v → p.parse_float s ≡ some v
