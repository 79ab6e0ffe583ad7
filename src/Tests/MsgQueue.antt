-- ===== src/Tests/MsgQueue.antt =====
-- Runs of src/common/msgqueue.c.
use tinywf.Prelude.{ℕ, ◌-◌, ◌≡◌, refl, false, Option, none, some, List, [], ◌∷◌, arith}
use tinywf.MsgQueue.{Queue, create, put, get, get_step, begin_swap, is_full, write, running}
use tinywf.MsgQueue.Holds.{Holds, create-Holds, put-Holds}
use tinywf.MsgQueue.Fifo.{Run, IsFifo, created, putting, getting, Run-IsFifo}
use tinywf.MsgQueue.Serve.{get_step-wait, get-first}

abbrev empty : Queue
empty = create 2 8 (λ _. 7)

-- What is there unless a thread waits.
queue_of : Option Queue → Queue
queue_of none = empty
queue_of (some q) = q

unfoldable one_message : Queue
unfolding queue_of put
one_message = queue_of (put 100 empty)

one_message-Run : Run one_message (100 ∷ []) []
unfolding one_message queue_of put create
one_message-Run = putting empty one_message [] [] 100 (created 2 8 (λ _. 7)) (omega arith) tt refl

-- A queue of two messages is full.
full : put 300 (queue_of (put 200 one_message)) ≡ none
unfolding one_message queue_of put create is_full
full = refl

Run-IsFifo_example : IsFifo one_message (100 ∷ []) []
Run-IsFifo_example = Run-IsFifo one_message (100 ∷ []) [] one_message-Run

-- The consumer swaps the lists of an empty queue and waits.
unfoldable waiting : Queue
unfolding begin_swap
waiting = begin_swap empty

waiting-Run : Run waiting [] []
unfolding waiting begin_swap get_step create write
waiting-Run = getting empty waiting [] [] running (created 2 8 (λ _. 7)) refl

get_step-wait_example : (◌≡◌ {A = List ℕ} [] []) × (waiting.nonblock ≡ false)
unfolding waiting begin_swap get_step create
get_step-wait_example = get_step-wait waiting [] [] waiting-Run refl

one_message-Holds : Holds one_message [] (108 ∷ [])
unfolding one_message queue_of put create
one_message-Holds =
    put-Holds 100 empty one_message [] [] (λ e. omega (arith, e))
      ((λ e. omega (arith, e)), ((λ e. omega (arith, e)), tt)) (create-Holds 2 8 (λ _. 7)) refl

get-first_example : (r : Queue) × (get one_message ≡ some (some (108 - one_message.linkoff), r))
get-first_example =
    get-first one_message [] (108 ∷ []) 108 [] (unfold one_message queue_of put create in refl)
      one_message-Holds refl
