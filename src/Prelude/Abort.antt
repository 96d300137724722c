-- ===== src/Prelude/Abort.antt =====
-- Code that may stop the process: a failed `assert` of the source is `abort`.
use mathlib.Core.Path.{◌≡◌, refl}
use Prim.Native.Nat.{ℕ}
use mathlib.Core.Bool.{Bool, true, false}

pub data Run {ℓ} (A : Type ℓ) : Type ℓ where
  ok : A → Run A
  abort : Run A

-- The C `assert`.
abbrev pub check : Bool → Run (Unit {0})
check true = ok tt
check false = abort

infixl 5 ◌>>=◌
abbrev pub ◌>>=◌ {ℓ κ} :
    {Before : Type ℓ} {After : Type κ} → Run Before → (Before → Run After) → Run After
ok result >>= rest = rest result
abort >>= rest = abort

infixl 5 ◌>>◌
abbrev pub ◌>>◌ {ℓ} : {After : Type ℓ} → Run (Unit {0}) → Run After → Run After
first >> second = first >>= λ _. second

pub >>=-eq-ok {ℓ κ} :
    {A : Type ℓ} {B : Type κ} (first : Run A) (rest : A → Run B) {final : B}
    → (first >>= rest) ≡ ok final
    → (between : A) × (first ≡ ok between) × (rest between ≡ ok final)
>>=-eq-ok (ok a) rest h = (a, refl, h)
>>=-eq-ok abort rest h = cc

-- A C `ssize_t` that is a count or -1.
pub data Ssize : Type 0 where
  minus_one : Ssize
  size : ℕ → Ssize
