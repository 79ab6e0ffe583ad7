-- ===== src/MsgQueue/Fifo.antt =====
-- Runs of src/common/msgqueue.c: threads that put and a consumer that takes, step by step.
use tinywf.Prelude.{
  ℕ, ◌+◌, ◌-◌, ◌<◌, ◌≡◌, ◌≢◌, refl, sym, ap, subst, ◌∙◌, Bool, true, false, none, some, List, [],
  ◌∷◌, ◌++◌, arith, length, drop, inl, inr, map,
}
use mathlib.Core.List.{append_assoc, append-nil}
use tinywf.MsgQueue.{
  Memory, Consumer, idle, swapping, swapped, Queue, create, put, set_block, set_nonblock, get_step,
  get_step_at, swap_step, end_swap, begin_swap, take_message, Outcome, running, returned,
}
use tinywf.MsgQueue.Chain.{IsFresh}
use tinywf.MsgQueue.Holds.{Holds, Locals, IsHead, get_cell, create-Holds, put-Holds}
use tinywf.MsgQueue.Take.{Delivers, get_step-Holds}

-- The message that a step returns, if any.
abbrev pub output : Outcome → List ℕ
output running = []
output (returned none) = []
output (returned (some msg)) = msg ∷ []

-- The messages that were put and not taken yet.
abbrev pub pending : List ℕ → List ℕ → List ℕ
pending sent got = drop (length got) sent

-- The runs from `msgqueue_create`, in any interleaving: `sent` was put, `got` was taken. A message
-- may be put unless it is pending already, and its link is no head of the queue.
pub data Run : Queue → List ℕ → List ℕ → Type 0 where
  created : (maxlen linkoff : ℕ) (memory : Memory) → Run (create maxlen linkoff memory) [] []
  putting :
      (q r : Queue) (sent got : List ℕ) (msg : ℕ)
      → Run q sent got
      → 2 < msg + q.linkoff
      → IsFresh msg (pending sent got)
      → put msg q ≡ some r
      → Run r (sent ++ msg ∷ []) got
  getting :
      (q r : Queue) (sent got : List ℕ) (o : Outcome)
      → Run q sent got
      → get_step q ≡ some (o, r)
      → Run r sent (got ++ output o)
  unblocked : (q : Queue) (sent got : List ℕ) → Run q sent got → Run (set_nonblock q) sent got
  blocked : (q : Queue) (sent got : List ℕ) → Run q sent got → Run (set_block q) sent got

-- The links of messages.
abbrev pub links : ℕ → List ℕ → List ℕ
links off msgs = map (λ m. m + off) msgs

-- What was put is what was taken and, behind it, what the two lists of the queue hold, in order.
unfoldable pub IsFifo : Queue → List ℕ → List ℕ → Type 0
IsFifo q sent got =
    (left : List ℕ) × (gets : List ℕ) × (puts : List ℕ) × (sent ≡ got ++ left)
    × Holds q gets puts
    × (gets ++ puts ≡ links q.linkoff left)

drop-length : (xs ys : List ℕ) → drop (length xs) (xs ++ ys) ≡ ys
drop-length [] ys = refl
drop-length (x ∷ xs) ys = drop-length xs ys

links-append : (off : ℕ) (xs ys : List ℕ) → links off (xs ++ ys) ≡ links off xs ++ links off ys
links-append off [] ys = refl
links-append off (x ∷ xs) ys = ap (◌∷◌ (x + off)) (links-append off xs ys)

IsFresh-links : (off msg : ℕ) (xs : List ℕ) → IsFresh msg xs → IsFresh (msg + off) (links off xs)
IsFresh-links off msg [] f = tt
IsFresh-links off msg (x ∷ xs) (n, f) = ((λ e. n (omega arith)), IsFresh-links off msg xs f)

IsHead-apart : (a link : ℕ) → IsHead a → 2 < link → link ≢ a
IsHead-apart a link (inl e) h k = omega arith
IsHead-apart a link (inr e) h k = omega arith

put-linkoff : (msg : ℕ) (q r : Queue) → put msg q ≡ some r → r.linkoff ≡ q.linkoff
unfolding put
put-linkoff msg q r e = ground (arith, e)

get_step_at-linkoff :
    (c : Consumer) (q : Queue) (res : Outcome × Queue)
    → get_step_at c q ≡ some res
    → res.1.linkoff ≡ q.linkoff
unfolding get_step_at begin_swap take_message swap_step end_swap
get_step_at-linkoff idle q res e = ground (arith, e)
get_step_at-linkoff (swapping old) q res e = ground (arith, e)
get_step_at-linkoff (swapped cnt) q res e = ground (arith, e)

with_nonblock :
    (b : Bool) (q : Queue) (gets puts : List ℕ)
    → Holds q gets puts
    → Holds (record q { nonblock = b }) gets puts
with_nonblock b q gets puts w = record {
  g_chain = w.g_chain;
  p_chain = w.p_chain;
  tail = w.tail;
  count = w.count;
  apart = w.apart;
  locals = locals q.consumer w.locals;
  heads = w.heads;
}
  where
    locals : (c : Consumer) → Locals c q gets → Locals c (record q { nonblock = b }) gets
    locals idle l = l
    locals (swapping old) l = l
    locals (swapped cnt) l = l

put-IsFifo :
    (q r : Queue) (sent got : List ℕ) (msg : ℕ)
    → IsFifo q sent got
    → 2 < msg + q.linkoff
    → IsFresh msg (pending sent got)
    → put msg q ≡ some r
    → IsFifo r (sent ++ msg ∷ []) got
unfolding IsFifo
put-IsFifo q r sent got msg (left, gets, puts, split, w, held) big fresh e =
    let off = q.linkoff in
    let unused : IsFresh msg left =
      subst (IsFresh msg) (ap (drop (length got)) split ∙ drop-length got left) fresh in
    let apart : IsFresh (msg + off) (gets ++ puts) =
      subst (IsFresh (msg + off)) (sym held) (IsFresh-links off msg left unused) in
    (
      left ++ msg ∷ [],
      gets,
      puts ++ (msg + off) ∷ [],
      ap (λ s. s ++ msg ∷ []) split ∙ append_assoc got left (msg ∷ []),
      put-Holds msg q r gets puts (omega arith)
          (
            IsHead-apart (get_cell q.consumer q.get_head) (msg + off) w.heads.0 big,
            (IsHead-apart q.put_head (msg + off) w.heads.1 big, apart),
          )
          w e,
      sym (append_assoc gets puts ((msg + off) ∷ []))
          ∙ ap (λ l. l ++ (msg + off) ∷ []) held
          ∙ sym (links-append off left (msg ∷ []))
          ∙ ap (λ k. links k (left ++ msg ∷ [])) (sym (put-linkoff msg q r e)),
    )

-- What is left behind the first message.
first_left :
    (off link msg : ℕ) (ys left : List ℕ)
    → link ∷ ys ≡ links off left
    → msg ≡ link - off
    → (rest : List ℕ) × (left ≡ msg ∷ rest) × (ys ≡ links off rest)
first_left off link msg ys [] e f = absurd (ground (arith, e))
first_left off link msg ys (m ∷ rest) e f = (rest, ground (arith, e, f), ground (arith, e))

get_step-IsFifo :
    (q r : Queue) (sent got : List ℕ) (o : Outcome)
    → IsFifo q sent got
    → get_step q ≡ some (o, r)
    → IsFifo r sent (got ++ output o)
unfolding IsFifo
get_step-IsFifo q r sent got o (left, gets, puts, split, w, held) e =
    let (gets', puts', v, gave) = get_step-Holds q r o gets puts w e in
    let off : r.linkoff ≡ q.linkoff =
      unfold get_step in get_step_at-linkoff q.consumer q (o, r) e in
    after o gets' puts' v gave off
  where
    kept :
        (gets' puts' : List ℕ)
        → Holds r gets' puts'
        → gets ++ puts ≡ gets' ++ puts'
        → r.linkoff ≡ q.linkoff
        → IsFifo r sent (got ++ [])
    kept gets' puts' v same off = (
      left,
      gets',
      puts',
      split ∙ ap (λ g. g ++ left) (sym (append-nil got)),
      v,
      sym same ∙ held ∙ ap (λ k. links k left) (sym off),
    )

    after :
        (o : Outcome) (gets' puts' : List ℕ)
        → Holds r gets' puts'
        → Delivers o q (gets ++ puts) (gets' ++ puts')
        → r.linkoff ≡ q.linkoff
        → IsFifo r sent (got ++ output o)
    after running gets' puts' v same off = kept gets' puts' v same off
    after (returned none) gets' puts' v same off = kept gets' puts' v same off
    after (returned (some msg)) gets' puts' v (link, first, at) off =
        let (rest, head, behind) =
          first_left q.linkoff link msg (gets' ++ puts') left (sym first ∙ held) at in
        (
          rest,
          gets',
          puts',
          split ∙ ap (λ l. got ++ l) head ∙ sym (append_assoc got (msg ∷ []) rest),
          v,
          behind ∙ ap (λ k. links k rest) (sym off),
        )

-- In whatever order threads put messages and the consumer takes its steps, a swap of the lists under
-- way included, the messages come out first in, first out: what was put is what was taken and,
-- behind it, what the two lists of the queue still hold in order, with nothing lost or doubled.
pub Run-IsFifo : (q : Queue) (sent got : List ℕ) → Run q sent got → IsFifo q sent got
unfolding IsFifo set_nonblock set_block
Run-IsFifo _ _ _ (created maxlen linkoff memory) =
    ([], [], [], refl, create-Holds maxlen linkoff memory, refl)
Run-IsFifo _ _ _ (putting q r sent got msg run big fresh e) =
    put-IsFifo q r sent got msg (Run-IsFifo q sent got run) big fresh e
Run-IsFifo _ _ _ (getting q r sent got o run e) =
    get_step-IsFifo q r sent got o (Run-IsFifo q sent got run) e
Run-IsFifo _ _ _ (unblocked q sent got run) =
    let (left, gets, puts, split, w, held) = Run-IsFifo q sent got run in
    (left, gets, puts, split, with_nonblock true q gets puts w, held)
Run-IsFifo _ _ _ (blocked q sent got run) =
    let (left, gets, puts, split, w, held) = Run-IsFifo q sent got run in
    (left, gets, puts, split, with_nonblock false q gets puts w, held)
