-- ===== src/Parallel/Copy.antt =====
-- Copying cells in src/factory/Workflow.cc.
use tinywf.Prelude.{
  ℕ, zero, suc, ◌+◌, ◌-◌, ◌≤◌, ◌≡◌, refl, ◌∙◌, List, ◌&&◌, arith, leb, ltb, if◌then◌else◌, length,
  length-set, get_or, set,
}
use tinywf.Sched.Table.{get_or-set}
use tinywf.Parallel.{memcpy}

pub length-memcpy :
    (n : ℕ) (src : List ℕ) (s : ℕ) (dst : List ℕ) (d : ℕ)
    → length (memcpy n src s dst d) ≡ length dst
unfolding memcpy
length-memcpy zero src s dst d = refl
length-memcpy (suc n) src s dst d =
    length-memcpy n src (s + 1) (set dst d (get_or src s 0)) (d + 1)
    ∙ length-set dst d (get_or src s 0)

-- What stands in the cells then.
pub get_or-memcpy :
    (n : ℕ) (src : List ℕ) (s : ℕ) (dst : List ℕ) (d k : ℕ)
    → d + n ≤ length dst
    → get_or (memcpy n src s dst d) k 0
      ≡ (if leb d k && ltb k (d + n) then get_or src (s + (k - d)) 0 else get_or dst k 0)
unfolding memcpy
get_or-memcpy zero src s dst d k h = ground arith
get_or-memcpy (suc n) src s dst d k h =
    let rest =
      get_or-memcpy n src (s + 1) (set dst d (get_or src s 0)) (d + 1) k
        (omega (arith, h, length-set dst d (get_or src s 0))) in
    let here = get_or-set dst d k (get_or src s 0) (omega (arith, h)) in ground (arith, rest, here)
