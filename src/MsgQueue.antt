-- ===== src/MsgQueue.antt =====
-- src/common/msgqueue.c: the queue of two lists. Memory gives the content of each `void *` cell by
-- its address, 0 is NULL, and a message is known by its address. A step is what a thread does while
-- it holds the lock that guards what it changes; `none` means that it waits.
pub mod Chain
pub mod Holds
pub mod Take
pub mod Fifo
pub mod Serve
use tinywf.Prelude.{
  ℕ, zero, suc, ◌+◌, ◌-◌, ◌%◌, ◌^◌, Bool, true, false, not, ◌&&◌, Option, none, some, ◌==◌, ltb,
  if◌then◌else◌,
}

abbrev pub Memory : Type 0
Memory = ℕ → ℕ

unfoldable pub write : Memory → ℕ → ℕ → Memory
write memory at v a = if a == at then v else memory a

-- Where the consumer stands that holds `get_mutex`: none does, one is inside `__msgqueue_swap` with
-- its local `get_head`, or one has the count that the swap returned.
pub data Consumer : Type 0 where
  idle : Consumer
  swapping swapped : ℕ → Consumer

-- `struct __msgqueue`, less the mutexes and the conditions.
pub record Queue : Type 0 where
  pub msg_max : ℕ
  pub msg_cnt : ℕ
  pub linkoff : ℕ
  pub nonblock : Bool
  pub get_head : ℕ
  pub put_head : ℕ
  pub put_tail : ℕ
  pub memory : Memory
  pub consumer : Consumer

-- The addresses of `head1` and `head2`.
abbrev pub head1 : ℕ
head1 = 1

abbrev pub head2 : ℕ
head2 = 2

-- `msgqueue_create`, where its allocations succeed.
unfoldable pub create : ℕ → ℕ → Memory → Queue
unfolding write
create maxlen linkoff memory = record {
  msg_max = maxlen;
  msg_cnt = 0;
  linkoff = linkoff;
  nonblock = false;
  get_head = head1;
  put_head = head2;
  put_tail = head2;
  memory = write (write memory head1 0) head2 0;
  consumer = idle;
}

unfoldable pub set_nonblock : Queue → Queue
set_nonblock q = record q { nonblock = true }

unfoldable pub set_block : Queue → Queue
set_block q = record q { nonblock = false }

-- `msg_cnt > msg_max - 1`, on `size_t`
unfoldable pub is_full : Queue → Bool
is_full q = ltb ((q.msg_max + 2 ^ 64 - 1) % 2 ^ 64) q.msg_cnt

-- `msgqueue_put`. The count does not wrap: each message queued has a cell of its own.
unfoldable pub put : ℕ → Queue → Option Queue
unfolding is_full write
put msg q =
    let link = msg + q.linkoff in
    if is_full q && not q.nonblock
    then none
    else some (record q {
      memory = write (write q.memory link 0) q.put_tail link;
      put_tail = link;
      msg_cnt = q.msg_cnt + 1;
    })

-- What a step of `msgqueue_get` ends with: it goes on, or it returns a message or NULL.
pub data Outcome : Type 0 where
  running : Outcome
  returned : Option ℕ → Outcome

-- `msg = *get_head - linkoff; *get_head = **get_head`
unfoldable pub take_message : Queue → Outcome × Queue
unfolding write
take_message q =
    let link = q.memory q.get_head in
    (
      returned (some (link - q.linkoff)),
      record q { memory = write q.memory q.get_head (q.memory link); consumer = idle },
    )

-- `__msgqueue_swap` before it locks `put_mutex`
unfoldable pub begin_swap : Queue → Queue
begin_swap q = record q { get_head = q.put_head; consumer = swapping q.get_head }

-- `__msgqueue_swap` under `put_mutex`
unfoldable pub end_swap : ℕ → Queue → Option Queue
end_swap get_head q =
    if q.msg_cnt == 0 && not q.nonblock
    then none
    else some (record q {
      put_head = get_head;
      put_tail = get_head;
      msg_cnt = 0;
      consumer = swapped q.msg_cnt;
    })

swap_step : Option Queue → Option (Outcome × Queue)
swap_step none = none
swap_step (some q) = some (running, q)

get_step_at : Consumer → Queue → Option (Outcome × Queue)
unfolding take_message begin_swap end_swap swap_step
get_step_at idle q =
    if q.memory q.get_head == 0 then some (running, begin_swap q) else some (take_message q)
get_step_at (swapping get_head) q = swap_step (end_swap get_head q)
get_step_at (swapped cnt) q =
    if ltb 0 cnt then some (take_message q) else some (returned none, record q { consumer = idle })

-- A step of `msgqueue_get`.
unfoldable pub get_step : Queue → Option (Outcome × Queue)
unfolding get_step_at
get_step q = get_step_at q.consumer q

-- `msgqueue_get` where no other thread comes in between: at most `fuel` steps, `none` if it waits.
unfoldable pub get_loop : ℕ → Queue → Option (Option ℕ × Queue)
unfolding get_step
get_loop zero q = none
get_loop (suc fuel) q = elim (get_step q) [
  | none ↦ none
  | some (o, r) ↦ elim o [ returned msg ↦ some (msg, r) | running ↦ get_loop fuel r ]
]

unfoldable pub get : Queue → Option (Option ℕ × Queue)
unfolding get_loop
get q = get_loop 3 q
