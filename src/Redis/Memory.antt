-- ===== src/Redis/Memory.antt =====
-- A server in memory, for the tests: a map from keys to a text or a number, and the seconds left.
use bukia_hft.Base.{
  ◌≡◌, ◌≢◌, refl, ℕ, suc, ◌<◌, ◌≤◌, ◌-◌, String, Option, none, some, arith, leb, str_eq, eq_iff,
  eq_refl, if◌then◌else◌,
}
use bukia_hft.Base.Int.{ℤ, pos, negsuc, ◌<ℤ◌}
use bukia_hft.Redis.{Redis}
use bukia_hft.Redis.Laws.{RedisLaws, absent}

pub record Entry : Type 0 where
  pub text : String
  pub number : ℕ
  pub life : Option ℕ

abbrev pub Memory : Type 0
Memory = String → Option Entry

abbrev pub empty : Memory
empty k = none

abbrev pub put : String → Option Entry → Memory → Memory
put k e m j = if str_eq j k then e else m j

abbrev pub ttl_of : Option Entry → ℤ
ttl_of none = negsuc 1
ttl_of (some e) = elim e.life [ none ↦ negsuc 0 | some n ↦ pos n ]

abbrev pub text_of : Option Entry → Option String
text_of none = none
text_of (some e) = some e.text

abbrev pub number_of : Option Entry → ℕ
number_of none = 0
number_of (some e) = e.number

abbrev pub counted : Option Entry → Entry
counted none = record { text = ""; number = 1; life = none }
counted (some e) = record e { number = suc e.number }

abbrev pub expired : ℕ → Option Entry → Option Entry
expired n none = none
expired n (some e) = elim e.life [
  | none ↦ some e
  | some t ↦ if leb t n then none else some (record e { life = some (t - n) })
]

abbrev pub with_life : ℕ → Option Entry → Option Entry
with_life n none = none
with_life n (some e) = some (record e { life = some n })

abbrev pub if_absent : Option Entry → Memory → Option Memory
if_absent none m = some m
if_absent (some e) m = none

abbrev pub memory : Redis
memory = record {
  Store = Memory;
  get = λ k m. text_of (m k);
  ttl = λ k m. ttl_of (m k);
  set = λ k v n m. put k (some (record { text = v; number = 0; life = some n })) m;
  set_nx =
      λ k v n m. if_absent (m k) (put k (some (record { text = v; number = 0; life = some n })) m);
  incr = λ k m. ((counted (m k)).number, put k (some (counted (m k))) m);
  expire = λ k n m. put k (with_life n (m k)) m;
  del = λ k m. put k none m;
  wait = λ n m j. expired n (m j);
}

put_self : (k : String) (e : Option Entry) (m : Memory) → put k e m k ≡ e
put_self k e m = rw (eq_refl k)

put_other : (j k : String) (e : Option Entry) (m : Memory) → j ≢ k → put k e m j ≡ m j
put_other j k e m h = ground (arith, eq_iff j k)

number-counted : (e : Option Entry) → (counted e).number ≡ suc (number_of e)
number-counted none = refl
number-counted (some e) = refl

number-with_life : (n : ℕ) (e : Option Entry) → number_of (with_life n e) ≡ number_of e
number-with_life n none = refl
number-with_life n (some e) = refl

ttl-expired :
    (n t : ℕ) (e : Option Entry) → ttl_of e ≡ pos t → t ≤ n → ttl_of (expired n e) ≡ absent
ttl-expired n t none h le = cc
ttl-expired n t (some e) h le = ground arith

number-expired :
    (n t : ℕ) (e : Option Entry) → ttl_of e ≡ pos t → t ≤ n → number_of (expired n e) ≡ 0
number-expired n t none h le = refl
number-expired n t (some e) h le = ground arith

number-expired_zero : (n : ℕ) (e : Option Entry) → number_of e ≡ 0 → number_of (expired n e) ≡ 0
number-expired_zero n none h = refl
number-expired_zero n (some e) h = ground arith

ttl-counted : (e : Option Entry) → 0 < number_of e → ttl_of (some (counted e)) ≡ ttl_of e
ttl-counted none h = absurd (omega (arith, h))
ttl-counted (some e) h = refl

ttl-with_life : (n : ℕ) (e : Option Entry) → 0 < number_of e → ttl_of (with_life n e) ≡ pos n
ttl-with_life n none h = absurd (omega (arith, h))
ttl-with_life n (some e) h = refl

if_absent-of_absent : (e : Option Entry) (m : Memory) → ttl_of e ≡ absent → if_absent e m ≡ some m
if_absent-of_absent e m h = ground arith

if_absent-of_present : (e : Option Entry) (m : Memory) → pos 0 <ℤ ttl_of e → if_absent e m ≡ none
if_absent-of_present none m h = absurd (omega (arith, h))
if_absent-of_present (some e) m h = refl

pub memory-RedisLaws : RedisLaws memory
memory-RedisLaws = record {
  counter = λ k m. number_of (m k);
  incr_value = λ k m. number-counted (m k);
  counter-incr = λ k m. rw (put_self k (some (counted (m k))) m, number-counted (m k));
  counter-wait = λ k n t m h le. number-expired n t (m k) h le;
  counter-wait_zero = λ k n m h. number-expired_zero n (m k) h;
  ttl-incr = λ k m h. rw (put_self k (some (counted (m k))) m, ttl-counted (m k) h);
  ttl-expire = λ k n m more h. rw (put_self k (with_life n (m k)) m, ttl-with_life n (m k) h);
  counter-expire = λ k n m h. rw (put_self k (with_life n (m k)) m, number-with_life n (m k));
  counter-del = λ k m. rw (put_self k none m);
  counter-del_other = λ j k m h. rw (put_other j k none m h);
  counter-set_other = λ j k v n m h. rw (put_other j k _ m h);
  ttl-incr_other = λ j k m h. rw (put_other j k _ m h);
  ttl-expire_other = λ j k n m h. rw (put_other j k _ m h);
  ttl-del_other = λ j k m h. rw (put_other j k none m h);
  ttl-del = λ k m. rw (put_self k none m);
  ttl-set = λ k v n m h. rw (put_self k (some (record { text = v; number = 0; life = some n })) m);
  ttl-wait = λ k n t m h le. ttl-expired n t (m k) h le;
  set_nx_absent = λ k v n m h. if_absent-of_absent (m k) _ h;
  set_nx_present = λ k v n m h. if_absent-of_present (m k) _ h;
  get-set = λ k v n m h. rw (put_self k (some (record { text = v; number = 0; life = some n })) m);
  get-set_other = λ j k v n m h. rw (put_other j k _ m h);
  get-del = λ k m. rw (put_self k none m);
  get-del_other = λ j k m h. rw (put_other j k none m h);
}

pub counter-empty : (k : String) → memory-RedisLaws.counter k empty ≡ 0
unfolding memory-RedisLaws
counter-empty k = refl

pub counter-memory : (k : String) (m : Memory) → memory-RedisLaws.counter k m ≡ number_of (m k)
unfolding memory-RedisLaws
counter-memory k m = refl
