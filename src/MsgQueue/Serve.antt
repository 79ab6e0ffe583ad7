-- ===== src/MsgQueue/Serve.antt =====
-- When the consumer of src/common/msgqueue.c waits, and what it gets where it is alone.
use tinywf.Prelude.{
  ℕ, suc, ◌-◌, ◌≡◌, sym, ap, ◌∙◌, false, Option, none, some, List, [], ◌∷◌, ◌++◌, arith,
}
use mathlib.Core.List.{append-nil}
use tinywf.MsgQueue.{
  Consumer, idle, swapping, swapped, Queue, get_step, get_step_at, swap_step, end_swap, begin_swap,
  take_message, get, get_loop, running, returned,
}
use tinywf.MsgQueue.Holds.{Holds, Locals, get_cell}
use tinywf.MsgQueue.Take.{swapped_state}
use tinywf.MsgQueue.Fifo.{Run, IsFifo, Run-IsFifo}

held_or_swapping :
    (c : Consumer) (q : Queue) (gets puts : List ℕ)
    → Locals c q gets
    → get_step_at c q ≡ none
    → (gets ≡ []) × (q.msg_cnt ≡ 0) × (q.nonblock ≡ false)
unfolding get_step_at swap_step end_swap
held_or_swapping idle q gets puts l e = absurd (ground (arith, e))
held_or_swapping (swapping old) q gets puts l e = ground (arith, e, l)
held_or_swapping (swapped cnt) q gets puts l e = absurd (ground (arith, e))

-- The consumer waits only if everything that was put has been taken and the queue blocks.
pub get_step-wait :
    (q : Queue) (sent got : List ℕ)
    → Run q sent got
    → get_step q ≡ none
    → (sent ≡ got) × (q.nonblock ≡ false)
unfolding get_step IsFifo
get_step-wait q sent got run e =
    let (left, gets, puts, split, w, held) = Run-IsFifo q sent got run in
    let (no_gets, cnt, blocking) = held_or_swapping q.consumer q gets puts w.locals e in
    let no_puts : puts ≡ [] = ground (arith, w.count, cnt) in
    let nothing : left ≡ [] = ground (arith, held, no_gets, no_puts) in
    (split ∙ ap (λ l. got ++ l) nothing ∙ append-nil got, blocking)

get_loop-returned :
    (fuel : ℕ) (q r : Queue) (msg : Option ℕ)
    → get_step q ≡ some (returned msg, r)
    → get_loop (suc fuel) q ≡ some (msg, r)
unfolding get_loop
get_loop-returned fuel q r msg e = ground (arith, e)

get_loop-running :
    (fuel : ℕ) (q r : Queue)
    → get_step q ≡ some (running, r)
    → get_loop (suc fuel) q ≡ get_loop fuel r
unfolding get_loop
get_loop-running fuel q r e = ground (arith, e)

-- Where the queue holds a message and the consumer is alone, `msgqueue_get` returns the first one.
pub get-first :
    (q : Queue) (gets puts : List ℕ) (link : ℕ) (rest : List ℕ)
    → q.consumer ≡ idle
    → Holds q gets puts
    → gets ++ puts ≡ link ∷ rest
    → (r : Queue) × (get q ≡ some (some (link - q.linkoff), r))
unfolding get get_step take_message
get-first q (l ∷ gets) puts link rest i w e =
    let at = w.g_chain in
    let cell : get_cell q.consumer q.get_head ≡ q.get_head = ap (λ c. get_cell c q.get_head) i in
    let here : q.memory q.get_head ≡ l = ap (λ (a : ℕ). q.memory a) (sym cell) ∙ at.0 in
    let same : l ≡ link = ground (arith, e) in
    (
      (take_message q).1,
      get_loop-returned 2 q (take_message q).1 (some (link - q.linkoff))
          (ap (λ c. get_step_at c q) i ∙ unfold get_step_at in ground (arith, here, same, at.1)),
    )
get-first q [] (l ∷ puts) link rest i w e =
    let cell : get_cell q.consumer q.get_head ≡ q.get_head = ap (λ c. get_cell c q.get_head) i in
    let here : q.memory q.get_head ≡ 0 = ap (λ (a : ℕ). q.memory a) (sym cell) ∙ w.g_chain in
    let same : l ≡ link = ground (arith, e) in
    let begun = begin_swap q in
    let ended = swapped_state q.get_head begun in
    (
      (take_message ended).1,
      get_loop-running 2 q begun (ap (λ c. get_step_at c q) i ∙ ground (arith, here))
          ∙ get_loop-running 1 begun ended (unfold swap_step end_swap in ground (arith, w.count))
          ∙ get_loop-returned 0 ended (take_message ended).1 (some (link - q.linkoff))
              (ground (arith, w.count, w.p_chain.0, same)),
    )
get-first q [] [] link rest i w e = absurd (ground (arith, e))
