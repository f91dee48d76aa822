-- ===== src/Db/Tx/Hoare.antt =====
-- Partial correctness of statements: from a database that satisfies `P`, a statement that succeeds
-- ends with a result and a database that satisfy `Q`. Nothing is said of a failure, since every
-- statement that matters is rolled back by its transaction then.
use trackstar.AppErr.{Failure}
use trackstar.Common.{Bool, false, if◌then◌else◌, refl, true, ◌≡◌}
use trackstar.Db.Rows.{Db}
use trackstar.Db.Tx.{Result, Tx, err, fail, map_err, ok, pure, refuse_if, ◌>>=◌, ◌>>◌}

abbrev pub OkPost : {A : Type 0} → (A → Db → Type 0) → Result A × Db → Type 0
OkPost Q (ok a, d) = Q a d
OkPost Q (err e, d) = Unit

-- `Hoare P m Q`
pub record Hoare {A : Type 0} (P : Db → Type 0) (m : Tx A) (Q : A → Db → Type 0) : Type 0 where
  pub at : (d : Db) → P d → OkPost Q (m d)

bind_at :
    {A B : Type 0} {Q : B → Db → Type 0} (R : A → Db → Type 0) (f : A → Tx B) (r : Result A)
    (d : Db)
    → OkPost R (r, d)
    → ((a : A) → Hoare (R a) (f a) Q)
    → OkPost Q (((λ (s : Db). (r, s)) >>= f) d)
bind_at R f (ok a) d h k = (k a).at d h
bind_at R f (err e) d h k = tt

module _ {P : Db → Type 0} where
  pub Hoare-pure :
      {A : Type 0} {Q : A → Db → Type 0} (a : A) → ((d : Db) → P d → Q a d) → Hoare P (pure a) Q
  Hoare-pure a h = record { at = h }

  pub Hoare-fail : {A : Type 0} {Q : A → Db → Type 0} (e : Failure) → Hoare P (fail {A = A} e) Q
  Hoare-fail e = record { at = λ d h. tt }

  pub Hoare-bind :
      {A B : Type 0} {Q : B → Db → Type 0} (R : A → Db → Type 0) {m : Tx A} {f : A → Tx B}
      → Hoare P m R
      → ((a : A) → Hoare (R a) (f a) Q)
      → Hoare P (m >>= f) Q
  Hoare-bind R {m} {f} hm hf = record {
    at = λ d h. let (r, d') = m d in bind_at R f r d' (hm.at d h) hf;
  }

  pub Hoare-if :
      {A : Type 0} {Q : A → Db → Type 0} (b : Bool) {m n : Tx A}
      → (b ≡ true → Hoare P m Q)
      → (b ≡ false → Hoare P n Q)
      → Hoare P (if b then m else n) Q
  Hoare-if true hm hn = hm refl
  Hoare-if false hm hn = hn refl

  -- A test that stands below the database.
  pub Hoare-if-below :
      {A : Type 0} {Q : A → Db → Type 0} (b : Bool) {m n : Tx A}
      → Hoare P m Q
      → Hoare P n Q
      → Hoare P (λ d. if b then m d else n d) Q
  Hoare-if-below true hm hn = hm
  Hoare-if-below false hm hn = hn

  -- A guard lets the rest assume that its test was false.
  pub Hoare-refuse :
      {A : Type 0} {Q : A → Db → Type 0} (b : Bool) (e : Failure) {m : Tx A}
      → (b ≡ false → Hoare P m Q)
      → Hoare P (refuse_if b e >> m) Q
  Hoare-refuse true e h = record { at = λ d p. tt }
  Hoare-refuse false e h = record { at = λ d p. (h refl).at d p }

module _ {A : Type 0} {m : Tx A} where
  -- A stronger precondition.
  pub Hoare-weaken :
      {P P' : Db → Type 0} {Q : A → Db → Type 0}
      → ((d : Db) → P' d → P d)
      → Hoare P m Q
      → Hoare P' m Q
  Hoare-weaken f h = record { at = λ d p. h.at d (f d p) }

post_at :
    {A : Type 0} (Q Q' : A → Db → Type 0) (r : Result A × Db)
    → ((a : A) (d : Db) → Q a d → Q' a d)
    → OkPost Q r
    → OkPost Q' r
post_at Q Q' (ok a, d) f h = f a d h
post_at Q Q' (err e, d) f h = tt

-- A weaker postcondition.
pub Hoare-post :
    {A : Type 0} {P : Db → Type 0} {m : Tx A} (Q : A → Db → Type 0) {Q' : A → Db → Type 0}
    → ((a : A) (d : Db) → Q a d → Q' a d)
    → Hoare P m Q
    → Hoare P m Q'
Hoare-post {m = m} Q {Q'} f h = record { at = λ d p. post_at Q Q' (m d) f (h.at d p) }

map_err_post :
    {A : Type 0} (Q : A → Db → Type 0) (f : Failure → Failure) (r : Result A) (d d' : Db)
    → OkPost Q (r, d')
    → OkPost Q (map_err f (λ _. (r, d')) d)
map_err_post Q f (ok a) d d' h = h
map_err_post Q f (err e) d d' h = tt

pub Hoare-map_err :
    {A : Type 0} {P : Db → Type 0} {Q : A → Db → Type 0} (f : Failure → Failure) {m : Tx A}
    → Hoare P m Q
    → Hoare P (map_err f m) Q
Hoare-map_err {Q = Q} f {m} h = record {
  at = λ d p. let (r, d') = m d in map_err_post Q f r d d' (h.at d p);
}

-- Facts that do not depend on the database, beside the precondition.
pub Hoare-given :
    {A : Type 0} {P : Db → Type 0} {S : Type 0} {m : Tx A} {Q : A → Db → Type 0}
    → (S → Hoare P m Q)
    → Hoare (λ d. P d × S) m Q
Hoare-given f = record { at = λ d h. (f h.1).at d h.0 }

-- A step that keeps `P`, with nothing said of its result.
pub Hoare-then :
    {A B : Type 0} {P : Db → Type 0} {Q : B → Db → Type 0} {m : Tx A} {f : A → Tx B}
    → Hoare P m (λ _ d. P d)
    → ((a : A) → Hoare P (f a) Q)
    → Hoare P (m >>= f) Q
Hoare-then {P = P} hm hf = Hoare-bind (λ _ d. P d) hm hf

any_post : {A : Type 0} (r : Result A × Db) → OkPost (λ (a : A) d. Unit) r
any_post (ok a, d) = tt
any_post (err e, d) = tt

-- Nothing is claimed.
pub Hoare-any : {A : Type 0} (m : Tx A) → Hoare (λ d. Unit) m (λ _ d. Unit)
Hoare-any m = record { at = λ d h. any_post (m d) }

both_post :
    {A : Type 0} (Q Q' : A → Db → Type 0) (r : Result A × Db)
    → OkPost Q r
    → OkPost Q' r
    → OkPost (λ a d. Q a d × Q' a d) r
both_post Q Q' (ok a, d) h k = (h, k)
both_post Q Q' (err e, d) h k = tt

pub Hoare-both :
    {A : Type 0} {P : Db → Type 0} {m : Tx A} (Q Q' : A → Db → Type 0)
    → Hoare P m Q
    → Hoare P m Q'
    → Hoare P m (λ a d. Q a d × Q' a d)
Hoare-both {m = m} Q Q' h k = record { at = λ d p. both_post Q Q' (m d) (h.at d p) (k.at d p) }
