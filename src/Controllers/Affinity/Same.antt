-- ===== src/Controllers/Affinity/Same.antt =====
-- The other governors' expand_cpu_list and that of the MIG slack governor, which also rejects
-- negative CPUs.
use jetson_dlagreen.Cpus.{some_negative}
use jetson_dlagreen.Common.{
  ℕ, false, List, Result, ◌≡◌, ok, ◌>>=◌, require, not, ◌||◌, ◌>>◌, err, refl, arith,
}
use jetson_dlagreen.Controllers.Affinity.{
  expand_cpu_list, ℤ, expand_items, split, is_empty, repeats, not_a_list,
}
use jetson_dlagreen.Cpus as Cpus
use jetson_dlagreen.Cpus.Signs.{expand_items-AreCpus, some_negative-AreCpus}

same_check :
    (m : Result (List ℤ))
    → ((cpus : List ℤ) → m ≡ ok cpus → some_negative cpus ≡ false)
    → (m >>= λ cpus. require (not (is_empty cpus || repeats cpus)) not_a_list >> ok cpus) ≡ (
        m >>= λ cpus.
        require (not (is_empty cpus || some_negative cpus || repeats cpus)) not_a_list >> ok cpus)
same_check (err e) h = refl
same_check (ok cpus) h = ground (arith, h cpus refl)

-- Both return the same CPUs or the same error, on every text.
pub expand_cpu_list-same :
    (specification : List ℕ) → expand_cpu_list specification ≡ Cpus.expand_cpu_list specification
unfolding expand_cpu_list Cpus.expand_cpu_list
expand_cpu_list-same specification =
    same_check (expand_items (split b',' specification)) (λ cpus h.
      some_negative-AreCpus cpus (expand_items-AreCpus (split b',' specification) cpus h))
