-- ===== src/Db/Keys.antt =====
-- Comparison of nullable columns with a value, as SQL's `=` does it: NULL equals nothing.
use bukia_hft.Base.{
  ◌≡◌, ◌≢◌, Bool-cases, inl, inr, String, Bool, true, false, Option, none, some, str_eq, eq_iff,
  eq_refl,
}

abbrev pub has_text : String → Option String → Bool
has_text k none = false
has_text k (some j) = str_eq j k

-- Two values that a partial unique index `WHERE column IS NOT NULL` takes for duplicates.
abbrev pub same_text : Option String → Option String → Bool
same_text none o = false
same_text (some k) o = has_text k o

pub has_text_self : (k : String) → has_text k (some k) ≡ true
has_text_self k = eq_refl k

pub has_text-eq : (k : String) (o : Option String) → has_text k o ≡ true → o ≡ some k
has_text-eq k none h = cc
has_text-eq k (some j) h = cc ((eq_iff j k).0 h)

pub not_blank : (t : String) → t ≢ "" → str_eq t "" ≡ false
not_blank t filled = elim (Bool-cases (str_eq t "")) [
  | inl blank ↦ absurd (filled ((eq_iff t "").0 blank))
  | inr fine ↦ fine
]
