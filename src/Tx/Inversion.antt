-- ===== src/Tx/Inversion.antt =====
-- What a step that returned says of the steps that it is made of.
use bukia_hft.Base.{◌≡◌, refl, ⊤, Bool, true, false, arith}
use bukia_hft.Db.{Db}
use bukia_hft.Tx.{
  Error, Result, ok, err, TxState, Tx, throw_if, statement, query, select, transaction, ◌>>=◌,
}

pub ok-injective :
    {A : Type 0} {a b : A} {s t : TxState}
    → ◌≡◌ {A = Result A × TxState} (ok a, s) (ok b, t)
    → (a ≡ b) × (s ≡ t)
ok-injective e = (cc, cc)

-- A sequence that returned has returned at both steps.
pub >>=-eq-ok :
    {A B : Type 0} (m : Tx A) (f : A → Tx B) (s : TxState) {b : B} {t : TxState}
    → (m >>= f) s ≡ (ok b, t)
    → (a : A) × (u : TxState) × (m s ≡ (ok a, u)) × (f a u ≡ (ok b, t))
>>=-eq-ok {A} {B} m f s {b} {t} h = go (m s) refl h
  where
    go :
        (r : Result A × TxState)
        → m s ≡ r
        → ◌≡◌ {A = Result B × TxState}
            (elim r.0 [ ok a ↦ f a r.1 | err e ↦ (err e, r.1) ])
            (ok b, t)
        → (a : A) × (u : TxState) × (m s ≡ (ok a, u)) × (f a u ≡ (ok b, t))
    go (ok a, u) e k = (a, u, e, k)
    go (err x, u) e k = cc

pub statement-eq-ok :
    {A : Type 0} (q : Db → Result (A × Db)) (s : TxState) (a : A) (t : TxState)
    → statement q s ≡ (ok a, t)
    → (s.aborted ≡ false) × (w : Db) × (q s.work ≡ ok (a, w)) × (t ≡ record s { work = w })
unfolding statement
statement-eq-ok q s a t h = (ground arith, t.work, ground arith, ground arith)

pub query-eq-ok :
    {A : Type 0} (q : Db → A × Db) (s : TxState) (a : A) (t : TxState)
    → query q s ≡ (ok a, t)
    → (s.aborted ≡ false) × (a ≡ (q s.work).0) × (t ≡ record s { work = (q s.work).1 })
unfolding query
query-eq-ok q s a t h = (ground arith, ground arith, ground arith)

pub select-eq-ok :
    {A : Type 0} (q : Db → A) (s : TxState) (a : A) (t : TxState)
    → select q s ≡ (ok a, t)
    → (s.aborted ≡ false) × (a ≡ q s.work) × (t ≡ s)
unfolding select
select-eq-ok q s a t h = (ground arith, ground arith, ground arith)

pub throw_if-eq-ok :
    (c : Bool) (e : Error) (s : TxState) (a : ⊤) (t : TxState)
    → throw_if c e s ≡ (ok a, t)
    → (c ≡ false) × (t ≡ s)
throw_if-eq-ok true e s a t h = cc
throw_if-eq-ok false e s a t h = (refl, cc)

pub transaction-of_ok :
    {A : Type 0} (m : Tx A) (db : Db) (a : A) (t : TxState)
    → m (record { committed = db; work = db; aborted = false }) ≡ (ok a, t)
    → t.aborted ≡ false
    → transaction m db ≡ (ok a, t.work)
unfolding transaction
transaction-of_ok m db a t ran live = ground arith

pub transaction-eq-ok :
    {A : Type 0} (m : Tx A) (db db' : Db) (a : A)
    → transaction m db ≡ (ok a, db')
    → (t : TxState) × (m (record { committed = db; work = db; aborted = false }) ≡ (ok a, t))
      × (t.aborted ≡ false → db' ≡ t.work)
unfolding transaction
transaction-eq-ok m db db' a ran =
    ((m (record { committed = db; work = db; aborted = false })).1, ground arith, ground arith)

pub transaction-of_err :
    {A : Type 0} (m : Tx A) (db : Db) (e : Error) (t : TxState)
    → m (record { committed = db; work = db; aborted = false }) ≡ (err e, t)
    → transaction m db ≡ (err e, t.committed)
unfolding transaction
transaction-of_err m db e t ran = ground arith

-- A sequence whose first step is known.
pub >>=-of_ok :
    {A B : Type 0} (m : Tx A) (f : A → Tx B) (s : TxState) (a : A) (t : TxState)
    → m s ≡ (ok a, t)
    → (m >>= f) s ≡ f a t
>>=-of_ok m f s a t ran = ground (arith, ran)

pub >>=-of_err :
    {A B : Type 0} (m : Tx A) (f : A → Tx B) (s : TxState) (e : Error) (t : TxState)
    → m s ≡ (err e, t)
    → (m >>= f) s ≡ (err e, t)
>>=-of_err m f s e t ran = ground (arith, ran)
