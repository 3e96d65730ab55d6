-- ===== src/Examples/Averages.antt =====
-- Logarithms and averages of util/ on concrete inputs.
use Prim.{tt}
use libuwifi.Base.{◌^◌, ◌≤◌, ◌≡◌, refl, some, [], ◌∷◌, arith}
use libuwifi.Util.Log.{ilog2, ilog2-power}
use libuwifi.Util.Average.{Ewma, add_all, ewma_read, ewma_read-bounds}

ilog2-power_example : ilog2 (2 ^ 10) ≡ some 10
ilog2-power_example = ilog2-power 10 (omega arith)

abbrev new_average : Ewma
new_average = record { internal = 0; factor = 10; weight = 3 }

ewma_read-bounds_example :
    (60 ≤ ewma_read (add_all new_average (60 ∷ 75 ∷ [])))
    × (ewma_read (add_all new_average (60 ∷ 75 ∷ [])) ≤ 80)
ewma_read-bounds_example =
    ewma_read-bounds new_average 60 80 60 (75 ∷ []) refl (omega arith)
      (omega arith, omega arith, (omega arith, omega arith, tt))
