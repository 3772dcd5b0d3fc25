-- ===== src/Tx/Quiet.antt =====
-- Steps that leave the committed rows alone, whether they return or throw.
use bukia_hft.Base.{◌≡◌, refl, sym, ◌∙◌, Bool, arith}
use mathlib.Core.Path.{subst}
use bukia_hft.Db.{Db}
use bukia_hft.Tx.{Error, Result, ok, err, TxState, Tx, throw_if, statement, query, select, ◌>>=◌}

abbrev pub IsQuiet : {A : Type 0} → Tx A → Type 0
IsQuiet m = (s : TxState) → (m s).1.committed ≡ s.committed

-- So they do where the committed rows satisfy a condition.
abbrev pub IsQuietWhen : {A : Type 0} → (Db → Type 0) → Tx A → Type 0
IsQuietWhen C m = (s : TxState) → C s.committed → (m s).1.committed ≡ s.committed

pub >>=-IsQuietWhen :
    (C : Db → Type 0) {A B : Type 0} (m : Tx A) (f : A → Tx B)
    → IsQuietWhen C m
    → ((a : A) → IsQuietWhen C (f a))
    → IsQuietWhen C (m >>= f)
>>=-IsQuietWhen C {A} {B} m f h k s c = go (m s) (h s c)
  where
    go :
        (r : Result A × TxState)
        → r.1.committed ≡ s.committed
        → (let p : Result B × TxState = elim r.0 [ ok a ↦ f a r.1 | err e ↦ (err e, r.1) ] in
            p.1.committed)
          ≡ s.committed
    go (ok a, u) e = k a u (subst C (sym e) c) ∙ e
    go (err x, u) e = e

pub statement-IsQuiet : {A : Type 0} (q : Db → Result (A × Db)) → IsQuiet (statement q)
unfolding statement
statement-IsQuiet q s = ground arith

pub query-IsQuiet : {A : Type 0} (q : Db → A × Db) → IsQuiet (query q)
unfolding query
query-IsQuiet q s = ground arith

pub select-IsQuiet : {A : Type 0} (q : Db → A) → IsQuiet (select q)
unfolding select
select-IsQuiet q s = ground arith

pub throw_if-IsQuiet : (c : Bool) (e : Error) → IsQuiet (throw_if c e)
throw_if-IsQuiet c e s = refl

-- The same for one run, with what the first step returned.
pub committed->>= :
    {A B : Type 0} (m : Tx A) (f : A → Tx B) (s : TxState) (c : Db)
    → (m s).1.committed ≡ c
    → ((a : A) (u : TxState) → m s ≡ (ok a, u) → u.committed ≡ c → (f a u).1.committed ≡ c)
    → ((m >>= f) s).1.committed ≡ c
committed->>= {A} {B} m f s c h k = go (m s) refl h
  where
    go :
        (r : Result A × TxState)
        → m s ≡ r
        → r.1.committed ≡ c
        → (let p : Result B × TxState = elim r.0 [ ok a ↦ f a r.1 | err e ↦ (err e, r.1) ] in
            p.1.committed)
          ≡ c
    go (ok a, u) e d = k a u e d
    go (err x, u) e d = d
