-- ===== src/Commit/Effects.antt =====
-- Actions on a `World`, with every state that they pass through: an interruption, or a call of the
-- operating system that fails, may leave any of these.
use libopod.Base.{◌≡◌, refl, sym, Bool, true, false, List, [], ◌∷◌, ◌++◌}
use libopod.Error.{Result, ok, err, ensure, verification, device_transaction}
use libopod.Commit.State.{World}
use mathlib.Core.Path.{subst}

pub record Trace (A : Type 0) : Type 0 where
  pub passed : List World
  pub last : World
  pub result : Result A

abbrev pub Action : Type 0 → Type 0
Action A = World → Trace A

infixl 5 ◌>>=◌ ◌>>◌
abbrev pub return : {A : Type 0} → A → Action A
return a w = record { passed = []; last = w; result = ok a }

abbrev continue : {A B : Type 0} → List World → World → Result A → (A → Action B) → Trace B
continue passed last (err e) rest = record { passed = passed; last = last; result = err e }
continue passed last (ok a) rest =
    let r = rest a last in record { passed = passed ++ r.passed; last = r.last; result = r.result }

abbrev pub ◌>>=◌ : {A B : Type 0} → Action A → (A → Action B) → Action B
(m >>= rest) w = let r = m w in continue r.passed r.last r.result rest

abbrev pub ◌>>◌ : {B : Type 0} → Action (Unit {0}) → Action B → Action B
m >> rest = m >>= λ nothing. rest

-- one change of the file system
unfoldable pub change : (World → World) → Action (Unit {0})
change f w = record { passed = w ∷ []; last = f w; result = ok tt }

-- what only reads
unfoldable pub inspect : {A : Type 0} → (World → Result A) → Action A
inspect f w = record { passed = []; last = w; result = f w }

-- `if !b { return Err(verification) }`
unfoldable pub check : (World → Bool) → Action (Unit {0})
unfolding inspect
check test = inspect λ w. ensure (test w) (verification device_transaction)

abbrev pub All : (World → Type 0) → List World → Type 0
All I [] = Unit {0}
All I (w ∷ ws) = I w × All I ws

pub All-append : (I : World → Type 0) (xs ys : List World) → All I xs → All I ys → All I (xs ++ ys)
All-append I [] ys h k = k
All-append I (x ∷ xs) ys h k = (h.0, All-append I xs ys h.1 k)

abbrev pub Outcome :
    {A : Type 0} → (World → Type 0) → (A → World → Type 0) → Result A → World → Type 0
Outcome E Q (ok a) w = Q a w
Outcome E Q (err e) w = E w

-- Every state passed is one of `I`; where it fails, the last one is of `E`; where it returns, of `Q`.
abbrev pub Ends :
    {A : Type 0} → (World → Type 0) → (World → Type 0) → (A → World → Type 0) → Trace A → Type 0
Ends I E Q r = All I r.passed × Outcome E Q r.result r.last

pub All-map :
    (I J : World → Type 0) → ((w : World) → I w → J w) → (xs : List World) → All I xs → All J xs
All-map I J f [] h = tt
All-map I J f (x ∷ xs) h = (f x h.0, All-map I J f xs h.1)

-- where nothing is asked of the end
pub Outcome-unit :
    {A : Type 0} (r : Result A) (w : World) → Outcome (λ _. Unit {0}) (λ _ _. Unit {0}) r w
Outcome-unit (ok a) w = tt
Outcome-unit (err e) w = tt

continue-Ends :
    {A B : Type 0} (I E : World → Type 0) (Q : A → World → Type 0) (R : B → World → Type 0)
    (passed : List World) (last : World) (result : Result A) (rest : A → Action B)
    → All I passed
    → Outcome E Q result last
    → ((a : A) (v : World) → Q a v → Ends I E R (rest a v))
    → Ends I E R (continue passed last result rest)
continue-Ends I E Q R passed last (err e) rest h k next = (h, k)
continue-Ends I E Q R passed last (ok a) rest h k next =
    let (p, q) = next a last k in (All-append I passed (rest a last).passed h p, q)

pub Ends-bind :
    {A B : Type 0} (I E : World → Type 0) (Q : A → World → Type 0) (R : B → World → Type 0)
    (m : Action A) (rest : A → Action B) (w : World)
    → Ends I E Q (m w)
    → ((a : A) (v : World) → Q a v → Ends I E R (rest a v))
    → Ends I E R ((m >>= rest) w)
Ends-bind I E Q R m rest w h next =
    continue-Ends I E Q R (m w).passed (m w).last (m w).result rest h.0 h.1 next

-- one change, and the rest
pub Ends-change :
    {B : Type 0} (I E : World → Type 0) (R : B → World → Type 0) (f : World → World)
    (rest : Action B) (w : World)
    → I w
    → Ends I E R (rest (f w))
    → Ends I E R ((change f >> rest) w)
unfolding change
Ends-change I E R f rest w h k = ((h, k.0), k.1)

-- a check, which may fail where the state is one of `E`
pub Ends-check :
    {B : Type 0} (I E : World → Type 0) (R : B → World → Type 0) (test : World → Bool)
    (rest : Action B) (w : World)
    → E w
    → (test w ≡ true → Ends I E R (rest w))
    → Ends I E R ((check test >> rest) w)
unfolding check inspect
Ends-check I E R test rest w h k = go (test w) k
  where
    go :
        (b : Bool)
        → (b ≡ true → Ends I E R (rest w))
        → Ends I E R (continue [] w (ensure b (verification device_transaction)) λ nothing. rest)
    go true k = k refl
    go false k = (tt, h)

-- a check that passes
pub Ends-passes :
    {B : Type 0} (I E : World → Type 0) (R : B → World → Type 0) (test : World → Bool)
    (rest : Action B) (w : World)
    → test w ≡ true
    → Ends I E R (rest w)
    → Ends I E R ((check test >> rest) w)
unfolding check inspect
Ends-passes I E R test rest w h k =
    subst
      (λ b. Ends I E R (continue [] w (ensure b (verification device_transaction)) λ nothing. rest))
      (sym h) k

-- the last change of an action
pub Ends-change_last :
    (I E : World → Type 0) (R : Unit {0} → World → Type 0) (f : World → World) (w : World)
    → I w
    → R tt (f w)
    → Ends I E R (change f w)
unfolding change
Ends-change_last I E R f w h k = ((h, tt), k)

-- the last check of an action
pub Ends-check_last :
    (I E : World → Type 0) (R : Unit {0} → World → Type 0) (test : World → Bool) (w : World)
    → test w ≡ true
    → R tt w
    → Ends I E R (check test w)
unfolding check inspect
Ends-check_last I E R test w h k =
    (tt, subst (λ b. Outcome E R (ensure b (verification device_transaction)) w) (sym h) k)

-- the last check of an action, whether it passes or not
pub Ends-check_either :
    (I E P : World → Type 0) (test : World → Bool) (w : World)
    → P w
    → E w
    → Ends I E (λ _ v. P v) (check test w)
unfolding check inspect
Ends-check_either I E P test w p h = (tt, go (test w))
  where
    go : (b : Bool) → Outcome E (λ _ v. P v) (ensure b (verification device_transaction)) w
    go true = p
    go false = h

-- what reads, where it gives a value
pub Ends-inspect :
    {A B : Type 0} (I E : World → Type 0) (R : B → World → Type 0) (f : World → Result A) (a : A)
    (rest : A → Action B) (w : World)
    → f w ≡ ok a
    → Ends I E R (rest a w)
    → Ends I E R ((inspect f >>= rest) w)
unfolding inspect
Ends-inspect I E R f a rest w h k = subst (λ r. Ends I E R (continue [] w r rest)) (sym h) k

Outcome-weaken :
    {A : Type 0} (E : World → Type 0) (Q R : A → World → Type 0) (r : Result A) (w : World)
    → Outcome E Q r w
    → ((a : A) (v : World) → Q a v → R a v)
    → Outcome E R r w
Outcome-weaken E Q R (ok a) w h next = next a w h
Outcome-weaken E Q R (err x) w h next = h

pub Ends-weaken :
    {A : Type 0} (I E : World → Type 0) (Q R : A → World → Type 0) (r : Trace A)
    → Ends I E Q r
    → ((a : A) (v : World) → Q a v → R a v)
    → Ends I E R r
Ends-weaken I E Q R r h next = (h.0, Outcome-weaken E Q R r.result r.last h.1 next)
