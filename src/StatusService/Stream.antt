-- ===== src/StatusService/Stream.antt =====
-- The events of `streamStatus` (services/idempotent.services.ts).
use bukia_hft.Base.{
  ◌≡◌, refl, String, Bool, true, false, not, ◌&&◌, ◌||◌, Option, none, some, List, [], ◌∷◌, arith,
  eq_iff, Bool-cases, inl, inr, str_eq, if◌then◌else◌,
}
use bukia_hft.Db.{Db}
use bukia_hft.StatusService.{
  IdempotentStatus, get_status, Event, data_event, end_event, is_previous, stream_from,
  stream_status, is_completed_status,
}
use bukia_hft.Repositories.Idempotency

unfoldable pub has_end : List Event → Bool
has_end [] = false
has_end (data_event s ∷ es) = has_end es
has_end (end_event ∷ es) = true

-- The record of the key exists and is completed.
abbrev pub is_done : String → Db → Bool
unfolding Idempotency.find_by_key
is_done key db = elim (Idempotency.find_by_key key db) [
  | none ↦ false
  | some r ↦ is_completed_status r.status
]

unfoldable pub some_done : String → List Db → Bool
some_done key [] = false
some_done key (db ∷ dbs) = is_done key db || some_done key dbs

-- No two data events in a row, the one sent before included, have the same text.
unfoldable pub has_no_repeat : Option String → List Event → Bool
has_no_repeat previous [] = true
has_no_repeat previous (data_event s ∷ es) =
    not (is_previous previous s) && has_no_repeat (some s) es
has_no_repeat previous (end_event ∷ es) = has_no_repeat previous es

is_completed_lem : (key : String) (db : Db) → (get_status key db).is_completed ≡ is_done key db
unfolding get_status is_done
is_completed_lem key db = ground arith

stream_from-ends :
    (stringify : IdempotentStatus → String) (key : String) (previous : Option String)
    (dbs : List Db)
    → has_end (stream_from stringify key previous dbs) ≡ some_done key dbs
unfolding stream_from has_end some_done
stream_from-ends stringify key previous [] = refl
stream_from-ends stringify key previous (db ∷ dbs) = ground (
  arith,
  is_completed_lem key db,
  stream_from-ends stringify key (some (stringify (get_status key db))) dbs,
)

-- What one callback writes, before the events of the later ones.
emit-no_repeat :
    (previous : Option String) (s : String) (done : Bool) (later : List Event)
    → has_no_repeat (some s) later ≡ true
    → let rest = if done then end_event ∷ [] else later in
      has_no_repeat previous (if is_previous previous s then rest else data_event s ∷ rest) ≡ true
unfolding has_no_repeat
emit-no_repeat none s true later h = refl
emit-no_repeat none s false later h = h
emit-no_repeat (some t) s true later h = ground arith
emit-no_repeat (some t) s false later h = elim (Bool-cases (str_eq t s)) [
  | inl same ↦ rw same (rw ((eq_iff t s).0 same) h)
  | inr other ↦ rw other (rw other h)
]

stream_from-no_repeat :
    (stringify : IdempotentStatus → String) (key : String) (previous : Option String)
    (dbs : List Db)
    → has_no_repeat previous (stream_from stringify key previous dbs) ≡ true
unfolding stream_from has_no_repeat
stream_from-no_repeat stringify key previous [] = refl
stream_from-no_repeat stringify key previous (db ∷ dbs) =
    emit-no_repeat previous (stringify (get_status key db)) (get_status key db).is_completed
      (stream_from stringify key (some (stringify (get_status key db))) dbs)
      (stream_from-no_repeat stringify key (some (stringify (get_status key db))) dbs)

-- The stream of a key sends the end exactly when one of its callbacks finds the record completed: as
-- long as the record is missing, pending, processing or failed, it does not end.
stream_ends_when_completed :
    (stringify : IdempotentStatus → String) (key : String) (dbs : List Db)
    → has_end (stream_status stringify key dbs) ≡ some_done key dbs
unfolding stream_status
stream_ends_when_completed stringify key dbs = stream_from-ends stringify key none dbs

-- Whatever the statuses are that its callbacks find, the stream never sends one text twice in a row.
stream_never_repeats :
    (stringify : IdempotentStatus → String) (key : String) (dbs : List Db)
    → has_no_repeat none (stream_status stringify key dbs) ≡ true
unfolding stream_status
stream_never_repeats stringify key dbs = stream_from-no_repeat stringify key none dbs

-- The stream of a key sends the end exactly when one of its callbacks finds the record completed: as
-- long as the record is missing, pending, processing or failed, it does not end. It never sends one text
-- twice in a row.
pub stream_ends_and_never_repeats :
    (stringify : IdempotentStatus → String) (key : String) (dbs : List Db)
    → (has_end (stream_status stringify key dbs) ≡ some_done key dbs)
      × (has_no_repeat none (stream_status stringify key dbs) ≡ true)
stream_ends_and_never_repeats stringify key dbs =
    (stream_ends_when_completed stringify key dbs, stream_never_repeats stringify key dbs)
