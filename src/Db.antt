-- ===== src/Db.antt =====
-- The tables of the service (src/models, src/migrations): one record per entity, and the database
-- as the lists of their rows. `createdAt`, `updatedAt` and the JSON columns that nothing reads are
-- left out, but for `metadata`, which is carried as the text of its JSON.
pub mod Keys
use bukia_hft.Base.{ℕ, String, Bool, Option, List}
use bukia_hft.Base.Int.{ℤ}

-- enums/user-roles.ts
pub data UserRole : Type 0 where
  admin super_admin user : UserRole

pub data Status : Type 0 where
  pending processing completed failed : Status

-- The JSON of the `response` column: `{ transferId }` or `{ reason }`.
pub data Response : Type 0 where
  transfer_id : Option ℕ → Response
  reason : String → Response

pub record Idempotency : Type 0 where
  pub key : String
  pub processed_at : Option ℕ
  pub response : Option Response
  pub status : Status

pub data LedgerEntryType : Type 0 where
  credit debit : LedgerEntryType

pub record LedgerEntry : Type 0 where
  pub id : ℕ
  pub amount : ℤ
  pub idempotency_key : Option String
  pub metadata : Option String
  pub tx_id : Option String
  pub type : LedgerEntryType
  pub wallet_id : ℕ

pub record Transfer : Type 0 where
  pub id : ℕ
  pub amount : ℤ
  pub from_wallet_id : ℕ
  pub idempotency_key : Option String
  pub metadata : Option String
  pub to_wallet_id : ℕ
  pub tx_id : Option String

pub record Wallet : Type 0 where
  pub id : ℕ
  pub currency : String
  pub is_default : Bool
  pub user_id : ℕ
  pub version : ℕ

-- `first_name` and `last_name` are those of the joined profile, if there is one. A soft-deleted user
-- has `deleted_at`.
pub record User : Type 0 where
  pub id : ℕ
  pub country : String
  pub deleted_at : Option ℕ
  pub email : String
  pub first_name : Option String
  pub isverified : Bool
  pub jwt_version : ℕ
  pub last_name : Option String
  pub password : Option String
  pub type : UserRole

-- `next_entry`, `next_transfer`, `next_user` and `next_wallet` are the SERIAL sequences, `now` the
-- server's clock.
pub record Db : Type 0 where
  pub users : List User
  pub wallets : List Wallet
  pub ledger : List LedgerEntry
  pub transfers : List Transfer
  pub records : List Idempotency
  pub next_entry : ℕ
  pub next_transfer : ℕ
  pub next_user : ℕ
  pub next_wallet : ℕ
  pub now : ℕ
