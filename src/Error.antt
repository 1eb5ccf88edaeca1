-- ===== src/Error.antt =====
-- src/error.rs: the error values, without their reason texts, and the result type of `?` chains.
use libopod.Base.{ℕ, ◌≡◌, refl, ◌⊎◌, inl, inr, Bool, true, false, Option, none, some, arith}

-- The `format` of a malformed or unverified input.
pub data Format : Type 0 where
  itunes_cdb locations_cbk hashab_database device_transaction : Format

-- The checks of an `IpodPath`, in the order in which they are made.
pub data PathFault : Type 0 where
  path_empty path_too_long path_absolute path_backslash path_colon path_nul : PathFault
  component_empty component_dots component_too_long : PathFault

pub data Error : Type 0 where
  invalid_ipod_path : PathFault → Error
  malformed : Format → ℕ → Error
  unsupported_compression : ℕ → Error
  verification : Format → Error
  recovery_required : Error

pub data Result {ℓ} (T : Type ℓ) : Type ℓ where
  ok : T → Result T
  err : Error → Result T

-- `if !b { return Err(e) }`
abbrev pub ensure : (passed : Bool) (otherwise : Error) → Result (Unit {0})
ensure true otherwise = ok tt
ensure false otherwise = err otherwise

-- `r?`, and the rest of the function
abbrev pub ◌>>=◌ {ℓ κ} : {T : Type ℓ} {U : Type κ} (r : Result T) (rest : T → Result U) → Result U
err fault >>= rest = err fault
ok value >>= rest = rest value

-- A check that passes was true; what stands behind it gives the result.
pub ensure-eq-ok {ℓ} :
    {T : Type ℓ} (passed : Bool) (otherwise : Error) (rest : Result T) {out : T}
    → (ensure passed otherwise >>= λ _. rest) ≡ ok out
    → (passed ≡ true) × (rest ≡ ok out)
ensure-eq-ok false otherwise rest h = cc
ensure-eq-ok true otherwise rest h = (refl, h)

abbrev pub ◌>>◌ {ℓ} : {U : Type ℓ} (r : Result (Unit {0})) (rest : Result U) → Result U
r >> rest = r >>= λ nothing. rest

infixl 5 ◌>>=◌ ◌>>◌
-- A function that returns a value has passed each `?`, with the value that stood there.
pub >>=-eq-ok {ℓ κ} :
    {T : Type ℓ} {U : Type κ} (r : Result T) (rest : T → Result U) {out : U}
    → (r >>= rest) ≡ ok out
    → (value : T) × (r ≡ ok value) × (rest value ≡ ok out)
>>=-eq-ok (err fault) rest h = cc
>>=-eq-ok (ok value) rest h = (value, refl, h)

pub ok-injective {ℓ} : {T : Type ℓ} {a b : T} → ok a ≡ ok b → a ≡ b
ok-injective h = cc

pub Result-cases {ℓ} :
    {A : Type ℓ} (r : Result A) → ((a : A) × (r ≡ ok a)) ⊎ ((e : Error) × (r ≡ err e))
Result-cases (ok a) = inl (a, refl)
Result-cases (err e) = inr (e, refl)

-- A computation with a loop on fuel: `none` says that the fuel ran out.
abbrev pub Run {ℓ} : Type ℓ → Type ℓ
Run A = Option (Result A)

abbrev pub and_then {ℓ κ} : {A : Type ℓ} {B : Type κ} → Run A → (A → Result B) → Run B
and_then none f = none
and_then (some r) f = some (r >>= f)

abbrev pub then_run {ℓ κ} : {A : Type ℓ} {B : Type κ} → Result A → (A → Run B) → Run B
then_run (ok a) f = f a
then_run (err e) f = some (err e)

pub and_then-eq-ok {ℓ κ} :
    {A : Type ℓ} {B : Type κ} (m : Run A) (f : A → Result B) {b : B}
    → and_then m f ≡ some (ok b)
    → (a : A) × (m ≡ some (ok a)) × (f a ≡ ok b)
and_then-eq-ok none f h = cc
and_then-eq-ok (some (ok a)) f h = (a, refl, ground arith)
and_then-eq-ok (some (err e)) f h = cc

pub then_run-eq-ok {ℓ κ} :
    {A : Type ℓ} {B : Type κ} (m : Result A) (f : A → Run B) {b : B}
    → then_run m f ≡ some (ok b)
    → (a : A) × (m ≡ ok a) × (f a ≡ some (ok b))
then_run-eq-ok (ok a) f h = (a, refl, h)
then_run-eq-ok (err e) f h = cc

-- two such computations, one after the other
abbrev pub run_run {ℓ κ} : {T : Type ℓ} {U : Type κ} → Run T → (T → Run U) → Run U
run_run none f = none
run_run (some r) f = then_run r f

-- the value, or the one given for every error
abbrev pub value_or {ℓ} : {T : Type ℓ} → T → Result T → T
value_or fallback (ok value) = value
value_or fallback (err fault) = fallback

pub run_run-eq-ok {ℓ κ} :
    {T : Type ℓ} {U : Type κ} (m : Run T) (f : T → Run U) {out : U}
    → run_run m f ≡ some (ok out)
    → (value : T) × (m ≡ some (ok value)) × (f value ≡ some (ok out))
run_run-eq-ok none f h = cc
run_run-eq-ok (some (ok value)) f h = (value, refl, h)
run_run-eq-ok (some (err fault)) f h = cc

-- A run ends where each of its stages does.
pub then_run_returns {ℓ κ} :
    {A : Type ℓ} {B : Type κ} (m : Result A) (f : A → Run B)
    → ((a : A) → m ≡ ok a → (r : Result B) × (f a ≡ some r))
    → (r : Result B) × (then_run m f ≡ some r)
then_run_returns (ok a) f h = h a refl
then_run_returns (err e) f h = (err e, refl)
