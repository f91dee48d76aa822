-- ===== src/Db/Tx/Frame.antt =====
-- Statements that leave the stories table alone, by the way they are put together.
use trackstar.AppErr.{Failure}
use trackstar.Common.{Bool, List, false, if◌then◌else◌, refl, subst, sym, true, ◌∙◌, ◌≡◌}
use trackstar.Db.Rows.{Db, StoryRow}
use trackstar.Db.Tx.{
  Result, Tx, err, fail, gets, in_tx, map_err, ok, pure, refuse_if, rolled_back, ◌>>=◌,
}
use trackstar.Db.Tx.Hoare.{Hoare, OkPost}

pub record KeepsStories {A : Type 0} (m : Tx A) : Type 0 where
  pub at : (d : Db) → (m d).1.stories ≡ d.stories

pub KeepsStories-pure : {A : Type 0} (a : A) → KeepsStories (pure a)
KeepsStories-pure a = record { at = λ d. refl }

pub KeepsStories-fail : {A : Type 0} (e : Failure) → KeepsStories (fail {A = A} e)
KeepsStories-fail e = record { at = λ d. refl }

pub KeepsStories-gets : {A : Type 0} (f : Db → A) → KeepsStories (gets f)
KeepsStories-gets f = record { at = λ d. refl }

pub KeepsStories-lift : {A : Type 0} (r : Result A) → KeepsStories (λ d. (r, d))
KeepsStories-lift r = record { at = λ d. refl }

pub KeepsStories-refuse : (b : Bool) (e : Failure) → KeepsStories (refuse_if b e)
KeepsStories-refuse b e = record { at = λ d. refl }

pub KeepsStories-if :
    {A : Type 0} (b : Bool) (m n : Tx A)
    → KeepsStories m
    → KeepsStories n
    → KeepsStories (if b then m else n)
KeepsStories-if true m n hm hn = hm
KeepsStories-if false m n hm hn = hn

map_err_at :
    {A : Type 0} (f : Failure → Failure) (r : Result A) (d' d : Db)
    → d'.stories ≡ d.stories
    → (map_err f (λ s. (r, d')) d).1.stories ≡ d.stories
map_err_at f (ok a) d' d h = h
map_err_at f (err e) d' d h = h

pub KeepsStories-map_err :
    {A : Type 0} (f : Failure → Failure) (m : Tx A) → KeepsStories m → KeepsStories (map_err f m)
KeepsStories-map_err f m h = record { at = λ d. let (r, d') = m d in map_err_at f r d' d (h.at d) }

bind_keeps :
    {A B : Type 0} (f : A → Tx B) (r : Result A) (d' d : Db)
    → d'.stories ≡ d.stories
    → ((a : A) → KeepsStories (f a))
    → (((λ (s : Db). (r, d')) >>= f) d).1.stories ≡ d.stories
bind_keeps f (ok a) d' d h k = (k a).at d' ∙ h
bind_keeps f (err e) d' d h k = h

pub KeepsStories-bind :
    {A B : Type 0} (m : Tx A) (f : A → Tx B)
    → KeepsStories m
    → ((a : A) → KeepsStories (f a))
    → KeepsStories (m >>= f)
KeepsStories-bind m f hm hf = record {
  at = λ d. let (r, d') = m d in bind_keeps f r d' d (hm.at d) hf;
}

pub ruleset keeps_stories = (
  KeepsStories-pure, KeepsStories-fail, KeepsStories-gets, KeepsStories-refuse, KeepsStories-if,
  KeepsStories-map_err, KeepsStories-bind,
)

keeps_at :
    {A : Type 0} (P : List StoryRow → Type 0) (r : Result A) (d' d : Db)
    → d'.stories ≡ d.stories
    → P d.stories
    → OkPost (λ (a : A) e. P e.stories) (r, d')
keeps_at P (ok a) d' d e h = subst P (sym e) h
keeps_at P (err x) d' d e h = tt

-- What is said of the stories alone holds after such a statement.
pub Hoare-keeps :
    {A : Type 0} (P : List StoryRow → Type 0) (m : Tx A)
    → KeepsStories m
    → Hoare (λ d. P d.stories) m (λ _ d. P d.stories)
Hoare-keeps P m k = record { at = λ d h. let (r, d') = m d in keeps_at P r d' d (k.at d) h }

-- A transaction that fails has changed nothing, so what it keeps when it succeeds it keeps always.
rolled_back_at :
    {A : Type 0} (P : Db → Type 0) (m : Tx A) (r : Result A) (d d' : Db)
    → m d ≡ (r, d')
    → P d
    → OkPost (λ (a : A) e. P e) (r, d')
    → P (in_tx m d).1
unfolding in_tx
rolled_back_at P m (ok a) d d' e h q = rw e q
rolled_back_at P m (err x) d d' e h q = rw e h

pub in_tx-keeps :
    {A : Type 0} (P : Db → Type 0) (m : Tx A)
    → Hoare P m (λ _ d. P d)
    → (d : Db) → P d
    → P (in_tx m d).1
in_tx-keeps P m k d h = let (r, d') = m d in rolled_back_at P m r d d' refl h (k.at d h)

rolled_ok :
    {A : Type 0} (r : Result A) (a : A) (d e d' : Db)
    → rolled_back r d e ≡ (ok a, d')
    → ◌≡◌ {A = Result A × Db} (r, e) (ok a, d')
rolled_ok (ok b) a d e d' h = h
rolled_ok (err x) a d e d' h = cc

-- A transaction that succeeds has done what its body did.
pub in_tx-ok :
    {A : Type 0} (m : Tx A) (a : A) (d d' : Db) → in_tx m d ≡ (ok a, d') → m d ≡ (ok a, d')
unfolding in_tx
in_tx-ok m a d d' h = rolled_ok (m d).0 a d (m d).1 d' h
