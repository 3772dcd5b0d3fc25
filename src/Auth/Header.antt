-- ===== src/Auth/Header.antt =====
-- The header that `authenticateJWT` reads (middleware/auth.ts).
use bukia_hft.Base.{
  ◌≡◌, ap, sym, ◌∙◌, String, false, some, arith, str_eq, eq_iff, Bool-cases, inl, inr,
}
use Prim.Native.Char.{Char}
use Prim.Native.String.{◌++◌}
use text.Mathlib.TextLemmas.{cons-append, nil-append, cons≢nil}
use bukia_hft.Base.Text.{strip_prefix, remove_first}
use bukia_hft.Auth.{bearer}

strip_prefix-append : (p t : String) → strip_prefix p (p ++ t) ≡ some t
strip_prefix-append String.[] t = ap some (nil-append t)
strip_prefix-append (String.◌∷◌ c p) t =
    rw (cons-append c p t) (ground (arith, strip_prefix-append p t))

remove_first-append :
    (c : Char) (p t : String) → remove_first (String.◌∷◌ c p) (String.◌∷◌ c p ++ t) ≡ t
remove_first-append c p t = rw (cons-append c p t) (ground (arith, strip_prefix-append p t))

pub remove_first-bearer : (t : String) → remove_first bearer (bearer ++ t) ≡ t
remove_first-bearer t = remove_first-append "B" "earer " t

pub bearer_filled : (t : String) → str_eq (bearer ++ t) "" ≡ false
bearer_filled t = elim (Bool-cases (str_eq (bearer ++ t) "")) [
  | inl same ↦
      absurd (cons≢nil (sym (cons-append "B" "earer " t) ∙ (eq_iff (bearer ++ t) "").0 same))
  | inr differ ↦ differ
]
