-- ===== src/Generator/Burst/Fits.antt =====
-- Which bursts fit the mempool.
use process_bus.Prelude.{
  ℕ, zero, suc, ◌+◌, ◌-◌, ◌*◌, ◌%◌, ◌^◌, ◌≤◌, ◌<◌, ◌≡◌, ◌↔◌, sym, ap, ◌∙◌, arith, replicate, leb,
  if◌then◌else◌,
}
use process_bus.Prelude.Result.{Result, ok, err}
use native.Mathlib.Nat.{mul-add, mul_comm}
use process_bus.Generator.Plan.{times-make_burst_plan}
use process_bus.Generator.Slices.{start, start-next, start-workers, ied_slice-start}
use process_bus.Generator.Burst.{make_r_burst_plans, total_burst, Platform, check_burst_fits}

mul-gap : (u lo hi : ℕ) → lo ≤ hi → u * (hi - lo) + u * lo ≡ u * hi
mul-gap u lo hi le =
    let whole : hi - lo + lo ≡ hi = omega (arith, le) in
    sym (mul-add u (hi - lo) lo) ∙ ap (λ n. u * n) whole

-- The plans of the workers from `i` on hold what is behind their first IED.
total_burst-from :
    (num workers units n i : ℕ)
    → num < 4294967296
    → i + n ≡ workers
    → total_burst (make_r_burst_plans num workers (replicate n units) i)
        + units * start num workers i
      ≡ units * start num workers workers
unfolding total_burst make_r_burst_plans
total_burst-from num workers units zero i fits all =
    let here : i ≡ workers = omega (arith, all) in
    let same = ap (λ j. units * start num workers j) here in omega (arith, same)
total_burst-from num workers units (suc n) i fits all =
    let lo : ℕ = start num workers i in
    let hi : ℕ = start num workers (suc i) in
    let turned : suc i ≡ i + 1 = omega arith in
    let rest = total_burst-from num workers units n (i + 1) fits (omega (arith, all)) in
    let end : units * start num workers (i + 1) ≡ units * hi =
      ap (λ j. units * start num workers j) (sym turned) in
    let gap = mul-gap units lo hi (ground (arith, start-next num workers i)) in
    let size = times-make_burst_plan (hi - lo) units 0 in
    rw (ied_slice-start num workers i fits (omega (arith, all)))
      (omega (arith, rest, end, gap, size.1))

total_burst_all :
    (num workers units : ℕ)
    → num < 4294967296
    → 1 ≤ workers
    → total_burst (make_r_burst_plans num workers (replicate workers units) 0) ≡ units * num
total_burst_all num workers units fits one =
    let all = total_burst-from num workers units workers 0 fits (omega arith) in
    let first : start num workers 0 ≡ 0 = ground arith in
    let none_before : units * start num workers 0 ≡ 0 =
      ap (λ n. units * n) first ∙ mul_comm units 0 ∙ omega arith in
    omega (arith, all, none_before, ap (λ n. units * n) (start-workers num workers one))

refuse_iff :
    (bound need : ℕ)
    → need < 2 ^ 64
    → (◌≡◌ {A = Result (Unit {0})} (if leb bound (need % 2 ^ 64) then err 1 else ok tt) (ok tt))
      ↔ (need < bound)
refuse_iff bound need fits = ground (arith, fits)

-- The burst of all workers together has every IED in each of its rounds, and it is refused unless the
-- mempool can hold it beside the transmit rings and caches of all workers: for up to 2 ^ 32 - 1 IEDs,
-- one worker at least, and a sum that a uint64_t holds.
pub check_burst_fits_iff :
    (platform : Platform) (num workers units : ℕ)
    → num < 4294967296
    → 1 ≤ workers
    → units * num + workers * platform.generator_tx_desc + workers * platform.mempool_cache_size
      < 2 ^ 64
    → let staged = total_burst (make_r_burst_plans num workers (replicate workers units) 0) in
      (staged ≡ units * num)
      × ((check_burst_fits platform staged workers ≡ ok tt) ↔ (
          units * num + workers * platform.generator_tx_desc + workers * platform.mempool_cache_size
          < platform.generator_mbuf_num))
unfolding check_burst_fits
check_burst_fits_iff platform num workers units fits one sum_fits =
    let all = total_burst_all num workers units fits one in
    (all, rw all (refuse_iff platform.generator_mbuf_num _ sum_fits))
