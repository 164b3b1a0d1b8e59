-- ===== src/Controllers/Affinity.antt =====
-- expand_cpu_list of runtime/full_gpu_governor.py, the same text in runtime/multimodal_governor.py and
-- runtime/mig_governor.py.
pub mod Same
use jetson_dlagreen.Common.Decimal.{split}
use jetson_dlagreen.Common.Int.{ℤ}
use jetson_dlagreen.Common.{
  ℕ, zero, suc, ◌∷◌, [], none, some, Bool, true, false, String, List, Result, ◌>>=◌, ◌>>◌, require,
  not, ◌||◌, ok,
}
use jetson_dlagreen.Cpus.{expand_items, is_empty, repeats, not_a_list}

unfoldable pub expand_cpu_list : List ℕ → Result (List ℤ)
expand_cpu_list specification = do
  cpus ← expand_items (split b',' specification)
  require (not (is_empty cpus || repeats cpus)) not_a_list
  ok cpus
