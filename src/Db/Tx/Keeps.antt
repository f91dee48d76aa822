-- ===== src/Db/Tx/Keeps.antt =====
-- Operations that keep a property of the database, on success and on failure alike.
use trackstar.AppErr.{Failure, app, constraint, no_rows, oauth}
use trackstar.Common.{Bool, Option, false, if◌then◌else◌, none, refl, some, true, ◌≡◌}
use trackstar.Db.Rows.{Db}
use trackstar.Db.Tx.{
  Result, Tx, err, in_tx, map_err, ok, or_fail, pure, refuse_if, rolled_back, unless_missing, ◌>>=◌,
  ◌>>◌,
}
use trackstar.Db.Tx.Frame.{in_tx-keeps}
use trackstar.Db.Tx.Hoare.{Hoare, OkPost}

-- `Keeps P m`
pub record Keeps {A : Type 0} (P : Db → Type 0) (m : Tx A) : Type 0 where
  pub at : (d : Db) → P d → P (m d).1

bind_keeps :
    {A B : Type 0} (P : Db → Type 0) (f : A → Tx B) (r : Result A) (d : Db)
    → P d
    → ((a : A) → Keeps P (f a))
    → P (((λ (s : Db). (r, d)) >>= f) d).1
bind_keeps P f (ok a) d h k = (k a).at d h
bind_keeps P f (err e) d h k = h

module _ {P : Db → Type 0} where
  pub Keeps-pure : {A : Type 0} (a : A) → Keeps P (pure a)
  Keeps-pure a = record { at = λ d h. h }

  pub Keeps-lift : {A : Type 0} (r : Result A) → Keeps P (λ d. (r, d))
  Keeps-lift r = record { at = λ d h. h }

  pub Keeps-bind :
      {A B : Type 0} {m : Tx A} {f : A → Tx B}
      → Keeps P m
      → ((a : A) → Keeps P (f a))
      → Keeps P (m >>= f)
  Keeps-bind {m = m} {f} hm hf = record {
    at = λ d h. let (r, d') = m d in bind_keeps P f r d' (hm.at d h) hf;
  }

  pub Keeps-refuse :
      {A : Type 0} (b : Bool) (e : Failure) {m : Tx A}
      → (b ≡ false → Keeps P m)
      → Keeps P (refuse_if b e >> m)
  Keeps-refuse true e h = record { at = λ d p. p }
  Keeps-refuse false e h = h refl

  pub Keeps-if :
      {A : Type 0} (b : Bool) {m n : Tx A}
      → (b ≡ true → Keeps P m)
      → (b ≡ false → Keeps P n)
      → Keeps P (if b then m else n)
  Keeps-if true hm hn = hm refl
  Keeps-if false hm hn = hn refl

map_err_at :
    {A : Type 0} (P : Db → Type 0) (f : Failure → Failure) (r : Result A) (d' d : Db)
    → P d'
    → P (map_err f (λ s. (r, d')) d).1
map_err_at P f (ok a) d' d h = h
map_err_at P f (err e) d' d h = h

pub Keeps-map_err :
    {A : Type 0} {P : Db → Type 0} (f : Failure → Failure) {m : Tx A}
    → Keeps P m
    → Keeps P (map_err f m)
Keeps-map_err {P = P} f {m} h = record {
  at = λ d p. let (r, d') = m d in map_err_at P f r d' d (h.at d p);
}

-- A lookup.
pub Keeps-found :
    {A : Type 0} {P : Db → Type 0} (e : Failure) (find : Db → Option A)
    → Keeps P (λ d. or_fail e (find d) d)
Keeps-found {A} {P} e find = record { at = λ d h. found_at (find d) d h }
  where
    found_at : (o : Option A) (d : Db) → P d → P (or_fail e o d).1
    found_at none d h = h
    found_at (some a) d h = h

-- A transaction keeps what it keeps where it succeeds.
pub Keeps-in_tx :
    {A : Type 0} {P : Db → Type 0} {m : Tx A} → Hoare P m (λ _ d. P d) → Keeps P (in_tx m)
Keeps-in_tx {P = P} {m} h = record { at = in_tx-keeps P m h }

then_at :
    {A B : Type 0} (f : A → Tx B) (r s : Result A × Db)
    → r ≡ s
    → (((λ (x : Db). r) >>= f) r.1) ≡ (((λ (x : Db). s) >>= f) s.1)
then_at f r s e = λ i. (((λ (x : Db). e i) >>= f) (e i).1)

-- What follows a statement whose result is known.
pub runs_then :
    {A B : Type 0} (m : Tx A) (f : A → Tx B) (d : Db) {a : A} {d' : Db}
    → m d ≡ (ok a, d')
    → (m >>= f) d ≡ f a d'
runs_then m f d {a} {d'} e = then_at f (m d) (ok a, d') e

rolled_at :
    {A : Type 0} (P : Db → Type 0) (r : Result A) (d e : Db) → P d → P e → P (rolled_back r d e).1
rolled_at P (ok a) d e h k = k
rolled_at P (err x) d e h k = h

pub Keeps-tx : {A : Type 0} {P : Db → Type 0} {m : Tx A} → Keeps P m → Keeps P (in_tx m)
unfolding in_tx
Keeps-tx {P = P} {m} h = record { at = λ d p. rolled_at P (m d).0 d (m d).1 p (h.at d p) }

missing_at :
    {A : Type 0} (P : Db → Type 0) (r : Result A) (d' d : Db)
    → P d'
    → P (unless_missing (λ s. (r, d')) d).1
missing_at P (ok a) d' d h = h
missing_at P (err no_rows) d' d h = h
missing_at P (err constraint) d' d h = h
missing_at P (err (app k m)) d' d h = h
missing_at P (err (oauth c)) d' d h = h

pub Keeps-unless_missing :
    {A : Type 0} {P : Db → Type 0} {m : Tx A} → Keeps P m → Keeps P (unless_missing m)
Keeps-unless_missing {P = P} {m} h = record {
  at = λ d p. missing_at P (m d).0 (m d).1 d (h.at d p);
}

-- A transaction that succeeds does what its body does.
pub Hoare-in_tx :
    {A : Type 0} {P : Db → Type 0} {m : Tx A} (Q : A → Db → Type 0)
    → Hoare P m Q
    → Hoare P (in_tx m) Q
unfolding in_tx
Hoare-in_tx {m = m} Q h = record { at = λ d p. committed Q (m d).0 d (m d).1 (h.at d p) }
  where
    committed :
        {A : Type 0} (Q : A → Db → Type 0) (r : Result A) (d e : Db)
        → OkPost Q (r, e)
        → OkPost Q (rolled_back r d e)
    committed Q (ok a) d e h = h
    committed Q (err x) d e h = tt
