-- ===== src/Compare/Tests.antt =====
-- Charges of a small comparison, and the theorems at concrete inputs.
use fornacast.Prelude.{◌+◌, ◌≤◌, ◌≡◌, ◌↔◌, refl, List, [], ◌∷◌, ok, arith}
use fornacast.Prelude.Bytes.{codes}
use fornacast.Compare.Budgets.{DecodedByteBudget, charge}
use fornacast.Compare.Charges.{Object, charge_all, distinct_bytes, charge_all_exact}

abbrev small : DecodedByteBudget
small = record { seen = []; used = 0; limit = 100 }

abbrev objects : List Object
objects = (codes "01", 60) ∷ (codes "02", 30) ∷ (codes "01", 60) ∷ []

charged_once : (charge_all "too large" objects small).1.used ≡ 90
unfolding charge_all charge
charged_once = refl

charge_all_exact_example :
    ((charge_all "too large" objects small).0 ≡ ok tt)
    ↔ (small.used + distinct_bytes small.seen objects ≤ small.limit)
charge_all_exact_example = charge_all_exact "too large" objects small (omega arith) (omega arith)
