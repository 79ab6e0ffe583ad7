-- ===== src/MsgQueue/Take.antt =====
-- The consumer's steps in src/common/msgqueue.c: what a queue holds after each.
use tinywf.Prelude.{
  ℕ, ◌-◌, ◌≡◌, refl, sym, ap, subst, none, some, List, [], ◌∷◌, ◌++◌, arith, length,
}
use mathlib.Core.List.{append-nil}
use tinywf.MsgQueue.{
  write, Consumer, idle, swapping, swapped, Queue, take_message, begin_swap, end_swap, get_step,
  get_step_at, swap_step, Outcome, running, returned,
}
use tinywf.MsgQueue.Chain.{Chain, IsFresh-parts, Distinct, last_cell, Chain-write, Chain-tail}
use tinywf.MsgQueue.Holds.{Holds, IsHead, get_cell, Locals}

-- What a step delivers of the messages in `xs`, so that `ys` are left.
abbrev pub Delivers : Outcome → Queue → List ℕ → List ℕ → Type 0
Delivers running q xs ys = xs ≡ ys
Delivers (returned none) q xs ys = xs ≡ ys
Delivers (returned (some msg)) q xs ys = (link : ℕ) × (xs ≡ link ∷ ys) × (msg ≡ link - q.linkoff)

abbrev pub Leaves : Outcome → Queue → List ℕ → Queue → Type 0
Leaves o q xs r =
    (gets : List ℕ) × (puts : List ℕ) × Holds r gets puts × Delivers o q xs (gets ++ puts)

-- What a queue holds whose consumer is at a known place.
record At (c : Consumer) (q : Queue) (gets puts : List ℕ) : Type 0 where
  g_chain : Chain q.memory (get_cell c q.get_head) gets
  p_chain : Chain q.memory q.put_head puts
  tail : q.put_tail ≡ last_cell q.put_head puts
  count : q.msg_cnt ≡ length puts
  apart : Distinct (get_cell c q.get_head ∷ q.put_head ∷ (gets ++ puts))
  locals : Locals c q gets
  heads : IsHead (get_cell c q.get_head) × IsHead q.put_head

Holds-At : (q : Queue) (gets puts : List ℕ) → Holds q gets puts → At q.consumer q gets puts
Holds-At q gets puts w = record {
  g_chain = w.g_chain;
  p_chain = w.p_chain;
  tail = w.tail;
  count = w.count;
  apart = w.apart;
  locals = w.locals;
  heads = w.heads;
}

-- Taking the first message of the get list.
take_message-Holds :
    (c : Consumer) (q : Queue) (link : ℕ) (gets puts : List ℕ)
    → get_cell c q.get_head ≡ q.get_head
    → At c q (link ∷ gets) puts
    → Leaves (take_message q).0 q ((link ∷ gets) ++ puts) (take_message q).1
unfolding take_message
take_message-Holds c q link gets puts e w =
    let (h, (k, (f, d))) =
      subst (λ (a : ℕ). Distinct (a ∷ q.put_head ∷ link ∷ (gets ++ puts))) e w.apart in
    let (at, some_link, chain) = subst (λ (a : ℕ). Chain q.memory a (link ∷ gets)) e w.g_chain in
    let (hg, hp) = IsFresh-parts q.get_head gets puts h.1.1 in
    (
      gets,
      puts,
      record {
        g_chain =
            subst (λ l. Chain (write q.memory q.get_head (q.memory l)) q.get_head gets) (sym at)
              (Chain-tail q.memory q.get_head link gets hg chain);
        p_chain =
            Chain-write q.memory q.get_head (q.memory (q.memory q.get_head)) q.put_head puts
              (λ e. h.0 (sym e)) hp w.p_chain;
        tail = w.tail;
        count = w.count;
        apart = ((h.0, h.1.1), (k.1, d));
        locals = tt;
        heads = (subst IsHead e w.heads.0, w.heads.1);
      },
      (link, refl, ap (λ l. l - q.linkoff) at),
    )

begin_swap-Holds :
    (q : Queue) (gets puts : List ℕ)
    → gets ≡ []
    → At idle q gets puts
    → Leaves running q (gets ++ puts) (begin_swap q)
unfolding begin_swap
begin_swap-Holds q gets puts e w = (
  gets,
  puts,
  record {
    g_chain = w.g_chain;
    p_chain = w.p_chain;
    tail = w.tail;
    count = w.count;
    apart = w.apart;
    locals = (e, refl);
    heads = w.heads;
  },
  refl,
)

-- The state that the swap leads to, if it does not wait.
abbrev pub swapped_state : ℕ → Queue → Queue
swapped_state old q = record q {
  put_head = old;
  put_tail = old;
  msg_cnt = 0;
  consumer = swapped q.msg_cnt;
}

swapped_state-Holds :
    (old : ℕ) (q : Queue) (puts : List ℕ)
    → q.get_head ≡ q.put_head
    → At (swapping old) q [] puts
    → Leaves running q puts (swapped_state old q)
swapped_state-Holds old q puts e w =
    let (h, (k, d)) = w.apart in
    (
      puts,
      [],
      record {
        g_chain = subst (λ (a : ℕ). Chain q.memory a puts) (sym e) w.p_chain;
        p_chain = w.g_chain;
        tail = refl;
        count = refl;
        apart =
            subst (λ (a : ℕ). Distinct (a ∷ old ∷ (puts ++ []))) (sym e)
              (subst (λ l. Distinct (q.put_head ∷ old ∷ l)) (sym (append-nil puts))
                (((λ e. h.0 (sym e)), k), (h.1, d)));
        locals = w.count;
        heads = (subst IsHead (sym e) w.heads.1, w.heads.0);
      },
      sym (append-nil puts),
    )

-- The cases of a step, by where the consumer stands.
step-At :
    (c : Consumer) (q : Queue) (gets puts : List ℕ) (res : Outcome × Queue)
    → At c q gets puts
    → get_step_at c q ≡ some res
    → Leaves res.0 q (gets ++ puts) res.1
unfolding get_step_at swap_step
step-At idle q [] puts res w e =
    let same : (running, begin_swap q) ≡ res = ground (arith, e, w.g_chain) in
    subst (λ (p : Outcome × Queue). Leaves p.0 q puts p.1) same (begin_swap-Holds q [] puts refl w)
step-At idle q (link ∷ gets) puts res w e =
    let same : take_message q ≡ res = ground (arith, e, w.g_chain.0, w.g_chain.1) in
    subst (λ (p : Outcome × Queue). Leaves p.0 q ((link ∷ gets) ++ puts) p.1) same
      (take_message-Holds idle q link gets puts refl w)
step-At (swapping old) q (link ∷ gets) puts res w e = absurd (ground (arith, w.locals.0))
step-At (swapping old) q [] puts res w e =
    let same : (running, swapped_state old q) ≡ res = unfold end_swap in ground (arith, e) in
    subst (λ (p : Outcome × Queue). Leaves p.0 q puts p.1) same
      (swapped_state-Holds old q puts w.locals.1 w)
step-At (swapped cnt) q [] puts res w e =
    let same : (returned none, record q { consumer = idle }) ≡ res = ground (arith, e, w.locals) in
    subst (λ (p : Outcome × Queue). Leaves p.0 q puts p.1) same
      (
        [],
        puts,
        record {
          g_chain = w.g_chain;
          p_chain = w.p_chain;
          tail = w.tail;
          count = w.count;
          apart = w.apart;
          locals = tt;
          heads = w.heads;
        },
        refl,
      )
step-At (swapped cnt) q (link ∷ gets) puts res w e =
    let same : take_message q ≡ res = ground (arith, e, w.locals) in
    subst (λ (p : Outcome × Queue). Leaves p.0 q ((link ∷ gets) ++ puts) p.1) same
      (take_message-Holds (swapped cnt) q link gets puts refl w)

-- A step of the consumer that does not wait delivers the first message, or none.
pub get_step-Holds :
    (q r : Queue) (o : Outcome) (gets puts : List ℕ)
    → Holds q gets puts
    → get_step q ≡ some (o, r)
    → Leaves o q (gets ++ puts) r
unfolding get_step
get_step-Holds q r o gets puts w e =
    step-At q.consumer q gets puts (o, r) (Holds-At q gets puts w) e
