-- ===== src/Arena/Bounds.antt =====
-- Assertions that held.
use http_server_from_scratch.Arena.{assert_then}
use http_server_from_scratch.Prelude.{◌≡◌, refl, arith, Bool, true, false, Option, some}

pub assert_some {ℓ} :
    {A : Type ℓ} (b : Bool) (o : Option A) (x : A)
    → assert_then b o ≡ some x
    → (b ≡ true) × (o ≡ some x)
assert_some true o x h = (refl, h)
assert_some false o x h = ground arith
