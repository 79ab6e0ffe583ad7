-- ===== src/Sched/Group/Choice.antt =====
-- `CommSchedGroup::acquire` of src/net/CommScheduler.cc: which target a thread comes to.
use tinywf.Prelude.{
  ℕ, ◌+◌, ◌-◌, ◌<◌, ◌≤◌, ◌≡◌, refl, sym, subst, Bool, true, false, arith, if◌then◌else◌, get_or,
  leb, Bool-cases, inl, inr,
}
use tinywf.Sched.Order.{leq, root_least}
use tinywf.Sched.Group.{
  Sched, Acquired, acquired, failed, waiting, eagain, etimedout, group_take, group_acquire,
  group_wake,
}
use tinywf.Sched.Group.Valid.{IsValid, IsValid-slot}
use tinywf.Sched.Group.Sums.{full-targets, root-room}
use tinywf.Sched.Group.Acquire.{one_more-IsValid}
use tinywf.Sched.Group.Members.{waits-IsValid}

-- The target `t` of the group has room, no target of the group has a lower relative load, and it has
-- one connection more in the valid state `r`.
pub record IsLeast (s : Sched) (t : ℕ) (r : Sched) : Type 0 where
  pub grouped : s.group_of t ≡ s.self
  pub room : s.loads.cur_load t < s.loads.max_load t
  pub least : (u : ℕ) → s.group_of u ≡ s.self → leq s.loads t u ≡ true
  pub counted : (r.loads.cur_load t ≡ s.loads.cur_load t + 1) × (r.cur_load ≡ s.cur_load + 1)
  pub valid : IsValid r

-- No target of the group has room.
unfoldable pub IsBusy : Sched → Type 0
IsBusy s = (u : ℕ) → s.group_of u ≡ s.self → s.loads.max_load u ≤ s.loads.cur_load u

-- A thread comes to a least target, or to none because all are full.
unfoldable pub IsServed : Sched → Acquired → Type 0
IsServed s (acquired t r) = IsLeast s t r
IsServed s (failed e r) = IsBusy s × IsValid r
IsServed s (waiting r) = IsBusy s × IsValid r

group_take-IsServed : (s : Sched) → IsValid s → s.cur_load < s.max_load → IsServed s (group_take s)
unfolding group_take IsServed
group_take-IsServed s v h =
    let (p, room) = root-room s v h in
    record {
      grouped = v.content.grouped 0 p;
      room = room;
      least = λ u g.
          let (q, e) = IsValid-slot s u v g in
          subst (λ x. leq s.loads (get_or s.heap.tg_heap 0 0) x ≡ true) e
            (root_least s.loads s.heap.tg_heap (s.heap.index u) v.ordered v.content.fits q);
      counted = (ground arith, refl);
      valid = one_more-IsValid s 0 v p room;
    }

busy : (s : Sched) → IsValid s → leb s.max_load s.cur_load ≡ true → IsBusy s
unfolding IsBusy
busy s v e u g = full-targets s u v (ground (arith, e)) g

pub group_acquire-IsServed :
    (can_wait : Bool) (s : Sched) → IsValid s → IsServed s (group_acquire can_wait s)
unfolding group_acquire IsServed
group_acquire-IsServed can_wait s v = elim (Bool-cases (leb s.max_load s.cur_load)) [
  | inl e ↦ subst (λ b. IsServed s (outcome b)) (sym e) (stopped (busy s v e) can_wait)
  | inr e ↦
      subst (λ b. IsServed s (outcome b)) (sym e) (group_take-IsServed s v (ground (arith, e)))
]
  where
    full : Bool → Acquired
    full w = if w then waiting (record s { wait_cnt = s.wait_cnt + 1 }) else failed eagain s

    outcome : Bool → Acquired
    outcome b = if b then full can_wait else group_take s

    stopped : IsBusy s → (w : Bool) → IsServed s (full w)
    stopped f true = (f, waits-IsValid s (s.wait_cnt + 1) s.wait_cnt_of v)
    stopped f false = (f, v)

pub group_wake-IsServed :
    (timed_out : Bool) (s : Sched) → IsValid s → IsServed s (group_wake timed_out s)
unfolding group_wake IsServed
group_wake-IsServed timed_out s v = elim (Bool-cases (leb s.max_load s.cur_load)) [
  | inl e ↦ subst (λ b. IsServed s (outcome b)) (sym e) (stopped (busy s v e) timed_out)
  | inr e ↦ subst (λ b. IsServed s (outcome b)) (sym e) (same_target (ground (arith, e)))
]
  where
    woken : Sched
    woken = record s { wait_cnt = s.wait_cnt - 1 }

    woken-IsValid : IsValid woken
    woken-IsValid = waits-IsValid s (s.wait_cnt - 1) s.wait_cnt_of v

    full : Bool → Acquired
    full w = if w then failed etimedout woken else waiting s

    outcome : Bool → Acquired
    outcome b = if b then full timed_out else group_take woken

    stopped : IsBusy s → (w : Bool) → IsServed s (full w)
    stopped f true = (f, woken-IsValid)
    stopped f false = (f, v)

    same_target : s.cur_load < s.max_load → IsServed s (group_take woken)
    same_target h =
        let l = group_take-IsServed woken woken-IsValid h in
        record {
          grouped = l.grouped;
          room = l.room;
          least = l.least;
          counted = l.counted;
          valid = l.valid;
        }
