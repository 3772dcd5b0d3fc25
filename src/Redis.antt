-- ===== src/Redis.antt =====
-- The Redis server, as the service's code uses it: an interface with the commands that are sent. The
-- integers are seconds; TTL answers -2 for a key that is not there and -1 for one that stays.
pub mod Laws
pub mod Memory
use bukia_hft.Base.{ℕ, String, Option, List}
use bukia_hft.Base.Int.{ℤ}
use bukia_hft.Db.{Db}
use bukia_hft.Mail.{Email}

pub record Redis : Type 1 where
  pub Store : Type 0
  pub get : String → Store → Option String
  pub ttl : String → Store → ℤ
  -- `SET key value EX seconds`, and with `NX`, which answers nil if the key is there
  pub set : String → String → ℕ → Store → Store
  pub set_nx : String → String → ℕ → Store → Option Store
  pub incr : String → Store → ℕ × Store
  pub expire : String → ℕ → Store → Store
  pub del : String → Store → Store
  -- the passing of seconds
  pub wait : ℕ → Store → Store

-- What a service that uses Redis reads and writes.
pub record Session (r : Redis) : Type 0 where
  pub db : Db
  pub store : r.Store
  pub outbox : List Email
