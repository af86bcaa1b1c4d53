-- ===== src/Mountd/World/Triple.antt =====
-- Partial correctness of handlers: what holds when one returns, and what holds when it fails. Every
-- handler is a total function, so it always does one of the two.
use isde.Common.{◌≡◌, refl, Bool, true, false, if◌then◌else◌}
use isde.Mountd.World.{World, Error, Result, ok, err, M, and_then, ◌>>=◌, ◌>>◌, require}

abbrev pub Post : {A : Type 0} → (A → World → Type 0) → (World → Type 0) → Result A × World → Type 0
Post Q R (ok a, w) = Q a w
Post Q R (err e, w) = R w

-- From a world with P the handler returns a value with Q, or fails in a world with R.
pub record Triple {A : Type 0} (P : World → Type 0) (m : M A) (Q : A → World → Type 0)
    (R : World → Type 0) : Type 0 where
  pub run : (w : World) → P w → Post Q R (m w)

post-bind :
    {A B : Type 0} (Q : A → World → Type 0) (R : World → Type 0) (S : B → World → Type 0)
    (f : A → M B) (r : Result A × World)
    → Post Q R r
    → ((a : A) (w : World) → Q a w → Post S R (f a w))
    → Post S R (and_then r f)
post-bind Q R S f (ok a, w) q k = k a w q
post-bind Q R S f (err e, w) q k = q

module _ {A B : Type 0} {P : World → Type 0} {Q : A → World → Type 0} {R : World → Type 0}
    {S : B → World → Type 0} where
  pub bind :
      {m : M A} {f : A → M B}
      → Triple P m Q R
      → ((a : A) → Triple (Q a) (f a) S R)
      → Triple P (m >>= f) S R
  bind {m} {f} t k = record {
    run = λ w p. post-bind Q R S f (m w) (t.run w p) (λ a v q. (k a).run v q);
  }

  pub seq :
      {m : M A} {n : M B} → Triple P m Q R → ((a : A) → Triple (Q a) n S R) → Triple P (m >> n) S R
  seq = bind

module _ {A : Type 0} {Q : A → World → Type 0} {R : World → Type 0} where
  -- A handler that keeps R whatever happens.
  pub returns :
      (a : A) {P : World → Type 0} → ((w : World) → P w → Q a w) → Triple P (λ w. (ok a, w)) Q R
  returns a h = record { run = h }

  pub fails :
      (e : Error) {P : World → Type 0} → ((w : World) → P w → R w) → Triple P (λ w. (err e, w)) Q R
  fails e h = record { run = h }

  pub branch :
      {P : World → Type 0} {m n : M A} (b : Bool)
      → (b ≡ true → Triple P m Q R)
      → (b ≡ false → Triple P n Q R)
      → Triple P (if b then m else n) Q R
  branch true t f = t refl
  branch false t f = f refl

pub required :
    {P : World → Type 0} {R : World → Type 0} (b : Bool) (e : Error)
    → ((w : World) → P w → R w)
    → Triple P (require b e) (λ _ w. (b ≡ true) × P w) R
unfolding require
required true e h = record { run = λ w p. (refl, p) }
required false e h = record { run = h }

pub weaken :
    {A : Type 0} {P : World → Type 0} {m : M A} {Q Q' : A → World → Type 0} {R R' : World → Type 0}
    → Triple P m Q R
    → ((a : A) (w : World) → Q a w → Q' a w)
    → ((w : World) → R w → R' w)
    → Triple P m Q' R'
weaken {A} {m} {Q} {Q'} {R} {R'} t f g = record { run = λ w p. go (m w) (t.run w p) }
  where
    go : (r : Result A × World) → Post Q R r → Post Q' R' r
    go (ok a, w) q = f a w q
    go (err e, w) q = g w q

-- Facts that do not depend on the world.
pub given :
    {A : Type 0} {P : World → Type 0} {m : M A} {Q : A → World → Type 0} {R : World → Type 0}
    {F : Type 0}
    → (F → Triple P m Q R)
    → Triple (λ w. F × P w) m Q R
given t = record { run = λ w h. (t h.0).run w h.1 }

-- What holds however the handler ends.
pub either :
    {A : Type 0} {Q : A → World → Type 0} {R : World → Type 0} (S : World → Type 0)
    (r : Result A × World)
    → Post Q R r
    → ((a : A) (w : World) → Q a w → S w)
    → ((w : World) → R w → S w)
    → S r.1
either S (ok a, w) q f g = f a w q
either S (err e, w) q f g = g w q

-- Two results of the same handler.
pub both :
    {A : Type 0} {P P' : World → Type 0} {m : M A} {Q Q' : A → World → Type 0}
    {R R' : World → Type 0}
    → Triple P m Q R
    → Triple P' m Q' R'
    → Triple (λ w. P w × P' w) m (λ a w. Q a w × Q' a w) (λ w. R w × R' w)
both {A} {m = m} {Q} {Q'} {R} {R'} t t' = record {
  run = λ w h. go (m w) (t.run w h.0) (t'.run w h.1);
}
  where
    go :
        (r : Result A × World)
        → Post Q R r
        → Post Q' R' r
        → Post (λ a w. Q a w × Q' a w) (λ w. R w × R' w) r
    go (ok a, w) q q' = (q, q')
    go (err e, w) q q' = (q, q')
