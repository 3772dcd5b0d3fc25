-- ===== src/StatusService.antt =====
-- services/idempotent.services.ts: the status of a key, and the stream of its changes. The callbacks of
-- the interval run one after the other, each on the database as it is then; `JSON.stringify` is a
-- parameter, and the headers of the response are left out.
pub mod Stream
use bukia_hft.Base.{
  ℕ, String, Bool, true, false, not, Option, none, some, List, [], ◌∷◌, str_eq, if◌then◌else◌,
}
use bukia_hft.Db.{Db, Status, pending, processing, completed, failed, Response, Idempotency}
use bukia_hft.Repositories.Idempotency

-- `IdempotentStatusType`
pub record IdempotentStatus : Type 0 where
  pub is_completed : Bool
  pub progress : ℕ
  pub response : Option Response
  pub status : Status

abbrev pub is_completed_status : Status → Bool
is_completed_status completed = true
is_completed_status _ = false

abbrev pub progress_of : Status → ℕ
progress_of processing = 50
progress_of completed = 100
progress_of _ = 0

-- `getStatus`
unfoldable pub get_status : String → Db → IdempotentStatus
unfolding Idempotency.find_by_key
get_status key db = elim (Idempotency.find_by_key key db) [
  | none ↦ record { is_completed = false; progress = 0; response = none; status = pending }
  | some r ↦ record {
    is_completed = is_completed_status r.status;
    progress = progress_of r.status;
    response = r.response;
    status = r.status;
  }
]

-- What is written to the client: the data of a status, and the end.
pub data Event : Type 0 where
  data_event : String → Event
  end_event : Event

abbrev pub is_previous : Option String → String → Bool
is_previous none s = false
is_previous (some t) s = str_eq t s

module _ (stringify : IdempotentStatus → String) where
  -- `streamStatus`: the events of the callbacks, on the databases that they meet, from the text that
  -- was sent last.
  unfoldable pub stream_from : String → Option String → List Db → List Event
  unfolding get_status
  stream_from key previous [] = []
  stream_from key previous (db ∷ dbs) =
      let payload = get_status key db in
      let serialized = stringify payload in
      let later = stream_from key (some serialized) dbs in
      let rest = if payload.is_completed then end_event ∷ [] else later in
      if is_previous previous serialized then rest else data_event serialized ∷ rest

  unfoldable pub stream_status : String → List Db → List Event
  unfolding stream_from
  stream_status key = stream_from key none
