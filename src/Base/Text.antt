-- ===== src/Base/Text.antt =====
-- What the code uses of JavaScript's texts.
use bukia_hft.Base.Tests.{◌==◌, if◌then◌else◌}
use Prim.Native.Nat.{ℕ, zero, suc}
use Prim.Native.Char.{code}
use Prim.Native.String.{String}
use mathlib.Core.Bool.{Bool, true, false}
use mathlib.Core.Option.{Option, none, some}

-- The rest of a text after another one.
abbrev pub strip_prefix : String → String → Option String
strip_prefix String.[] s = some s
strip_prefix (String.◌∷◌ c p) String.[] = none
strip_prefix (String.◌∷◌ c p) (String.◌∷◌ d s) =
    let rest = strip_prefix p s in if code c == code d then rest else none

-- `replace` with an empty text: the first place where the text stands is left out.
abbrev pub remove_first : String → String → String
remove_first p String.[] = String.[]
remove_first p (String.◌∷◌ d s) =
    let rest = remove_first p s in
    elim (strip_prefix p (String.◌∷◌ d s)) [ some after ↦ after | none ↦ String.◌∷◌ d rest ]

-- `includes`
abbrev pub has_text_in : String → String → Bool
has_text_in p String.[] = elim (strip_prefix p String.[]) [ some after ↦ true | none ↦ false ]
has_text_in p (String.◌∷◌ d s) =
    let rest = has_text_in p s in
    elim (strip_prefix p (String.◌∷◌ d s)) [ some after ↦ true | none ↦ rest ]

-- `slice(0, n)`
abbrev pub first_chars : ℕ → String → String
first_chars zero s = String.[]
first_chars (suc n) String.[] = String.[]
first_chars (suc n) (String.◌∷◌ c s) = String.◌∷◌ c (first_chars n s)
