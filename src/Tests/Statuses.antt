-- ===== src/Tests/Statuses.antt =====
-- The theorems on the stream of statuses at concrete inputs.
use bukia_hft.Base.{◌≡◌, String, true, none, [], ◌∷◌, if◌then◌else◌}
use bukia_hft.StatusService.{IdempotentStatus, stream_status}
use bukia_hft.StatusService.Stream.{
  has_end, some_done, has_no_repeat, stream_ends_and_never_repeats,
}
use bukia_hft.Example.{db, paid}

abbrev short : IdempotentStatus → String
short s = if s.is_completed then "completed" else "open"

stream_ends_and_never_repeats_example :
    (has_end (stream_status short "k1" (db ∷ db ∷ paid ∷ []))
      ≡ some_done "k1" (db ∷ db ∷ paid ∷ []))
    × (has_no_repeat none (stream_status short "k1" (db ∷ db ∷ paid ∷ [])) ≡ true)
stream_ends_and_never_repeats_example =
    stream_ends_and_never_repeats short "k1" (db ∷ db ∷ paid ∷ [])
