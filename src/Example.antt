-- ===== src/Example.antt =====
-- A platform, a mailer and a small database, for the tests and the instances. Its texts of numbers
-- are strokes, one for each unit, behind a `-` where the number is negative.
use bukia_hft.Base.{
  ℕ, zero, suc, ◌+◌, ◌*◌, ◌-◌, String, Bool, true, false, Option, none, some, List, [], ◌∷◌, ◌==◌,
  str_eq, if◌then◌else◌,
}
use bukia_hft.Base.Int.{ℤ, pos, negsuc}
use Prim.Native.Char.{code}
use Prim.Native.String
use bukia_hft.Db.{
  Db, User, user, Wallet, Idempotency, LedgerEntry, LedgerEntryType, credit, debit, Transfer,
  transfer_id, pending, completed,
}
use bukia_hft.Db.Keys.{has_text}
use bukia_hft.Mail.{Email, Mailer, World}
use bukia_hft.Platform.{Platform}
use bukia_hft.TransferService.{Payload}
use bukia_hft.TransferService.Process.{Runtime}
pub mod Reading
pub mod Tokens

abbrev pub strokes : ℕ → String
strokes zero = String.[]
strokes (suc n) = String.◌∷◌ "I" (strokes n)

abbrev pub count_strokes : String → ℕ
count_strokes String.[] = 0
count_strokes (String.◌∷◌ c s) = suc (count_strokes s)

abbrev pub read : String → Option ℤ
read String.[] = some (pos 0)
read (String.◌∷◌ c s) =
    if code c == b'-' then some (negsuc (count_strokes s)) else some (pos (suc (count_strokes s)))

abbrev pub print : ℤ → String
print (pos n) = strokes n
print (negsuc n) = String.◌∷◌ "-" (strokes n)

abbrev pub scale : Option ℤ → ℕ → Option ℤ
scale none rate = none
scale (some (pos n)) rate = some (pos (n * rate))
scale (some (negsuc n)) rate = some (negsuc (n * rate + rate - 1))

abbrev pub platform : Platform
platform = record {
  numeric = read;
  numeric_text = print;
  parse_float = read;
  to_number = read;
  times = scale;
  unit_rate = 1;
  conversion_rate = λ from to. if str_eq from "USD" then some 15 else none;
}

abbrev pub wallet : ℕ → ℕ → String → Wallet
wallet id user_id currency = record {
  id = id;
  currency = currency;
  is_default = true;
  user_id = user_id;
  version = 0;
}

abbrev pub deposit : LedgerEntry
deposit = record {
  id = 1;
  amount = pos 9;
  idempotency_key = none;
  metadata = none;
  tx_id = none;
  type = credit;
  wallet_id = 1;
}

abbrev pub ada : User
ada = record {
  id = 7;
  country = "NG";
  deleted_at = none;
  email = "ada@example.com";
  first_name = some "Ada";
  isverified = true;
  jwt_version = 0;
  last_name = some "Obi";
  password = none;
  type = user;
}

abbrev pub pending_record : Idempotency
pending_record = record { key = "k1"; processed_at = none; response = none; status = pending }

abbrev pub db : Db
db = record {
  users = ada ∷ [];
  wallets = wallet 1 7 "USD" ∷ wallet 2 8 "USD" ∷ wallet 3 8 "NGN" ∷ [];
  ledger = deposit ∷ [];
  transfers = [];
  records = pending_record ∷ [];
  next_entry = 2;
  next_transfer = 5;
  next_user = 9;
  next_wallet = 4;
  now = 1000;
}

abbrev pub payload : Payload
payload = record {
  amount = "IIII";
  currency = "USD";
  from_wallet_id = 1;
  idempotency_key = "k1";
  metadata = none;
  to_wallet_id = 2;
  tx_id = none;
  user_id = 7;
}

abbrev pub world : World
world = record { db = db; outbox = [] }

abbrev pub runtime : Runtime
runtime = record { platform = platform; mailer = λ sent e. true; meanwhile = λ ms w. w }

-- A mailer that refuses what it is first given, and accepts reports of failures.
abbrev pub moody : Runtime
moody = record {
  platform = platform;
  mailer = λ sent e. has_text "Transfer failed" e.subject;
  meanwhile = λ ms w. w;
}

-- The database once `payload` has been carried out.
abbrev pub sample_entry : ℕ → LedgerEntryType → ℕ → LedgerEntry
sample_entry id type wallet_id = record deposit {
  id = id;
  amount = pos 4;
  idempotency_key = some "k1";
  type = type;
  wallet_id = wallet_id;
}

abbrev pub paid_wallet : ℕ → ℕ → Wallet
paid_wallet id user_id = record (wallet id user_id "USD") { version = 1 }

abbrev pub sample_transfer : Transfer
sample_transfer = record {
  id = 5;
  amount = pos 4;
  from_wallet_id = 1;
  idempotency_key = some "k1";
  metadata = none;
  to_wallet_id = 2;
  tx_id = none;
}

abbrev pub closed_record : Idempotency
closed_record = record {
  key = "k1";
  processed_at = some 1000;
  response = some (transfer_id (some 5));
  status = completed;
}

abbrev pub paid : Db
paid = record db {
  wallets = paid_wallet 1 7 ∷ paid_wallet 2 8 ∷ wallet 3 8 "NGN" ∷ [];
  ledger = deposit ∷ sample_entry 2 debit 1 ∷ sample_entry 3 credit 2 ∷ [];
  transfers = sample_transfer ∷ [];
  records = closed_record ∷ [];
  next_entry = 4;
  next_transfer = 6;
}
