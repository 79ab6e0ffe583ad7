-- ===== src/MsgQueue/Holds.antt =====
-- What a queue of src/common/msgqueue.c holds: the messages of its two lists, while threads put and
-- a consumer takes, and what each step makes of them.
use tinywf.Prelude.{
  ℕ, ◌+◌, ◌≡◌, ◌≢◌, refl, sym, subst, ◌∙◌, some, List, [], ◌∷◌, ◌++◌, arith, length, length-append,
  ◌⊎◌, inl, inr,
}
use mathlib.Core.List.{append_assoc}
use tinywf.MsgQueue.{
  Memory, write, Consumer, idle, swapping, swapped, Queue, put, head1, head2, create,
}
use tinywf.MsgQueue.Chain.{
  Chain, IsFresh, Distinct, last_cell, write_self, write_other, IsFresh-append, IsFresh-parts,
  IsFresh-last, Chain-write, Chain-snoc,
}

-- The cell that the get list hangs on, also while the consumer swaps the lists.
abbrev pub get_cell : Consumer → ℕ → ℕ
get_cell idle get_head = get_head
get_cell (swapping old) get_head = old
get_cell (swapped cnt) get_head = get_head

-- What the consumer's local variables say of the lists.
abbrev pub Locals : Consumer → Queue → List ℕ → Type 0
Locals idle q gets = Unit {0}
Locals (swapping old) q gets = (gets ≡ []) × (q.get_head ≡ q.put_head)
Locals (swapped cnt) q gets = cnt ≡ length gets

abbrev pub IsHead : ℕ → Type 0
IsHead a = (a ≡ head1) ⊎ (a ≡ head2)

-- The queue holds `gets` and, behind them, `puts`: two lists in cells of their own, the tail of the
-- put list is its last cell and the count its length.
pub record Holds (q : Queue) (gets puts : List ℕ) : Type 0 where
  pub g_chain : Chain q.memory (get_cell q.consumer q.get_head) gets
  pub p_chain : Chain q.memory q.put_head puts
  pub tail : q.put_tail ≡ last_cell q.put_head puts
  pub count : q.msg_cnt ≡ length puts
  pub apart : Distinct (get_cell q.consumer q.get_head ∷ q.put_head ∷ (gets ++ puts))
  pub locals : Locals q.consumer q gets
  pub heads : IsHead (get_cell q.consumer q.get_head) × IsHead q.put_head

-- The cells that the queue uses.
abbrev pub cells : Queue → List ℕ → List ℕ → List ℕ
cells q gets puts = get_cell q.consumer q.get_head ∷ q.put_head ∷ (gets ++ puts)

Distinct-snoc : (xs : List ℕ) (a : ℕ) → IsFresh a xs → Distinct xs → Distinct (xs ++ a ∷ [])
Distinct-snoc [] a f d = (tt, tt)
Distinct-snoc (x ∷ xs) a (n, f) (g, d) =
    (IsFresh-append x xs (a ∷ []) g ((λ e. n (sym e)), tt), Distinct-snoc xs a f d)

Distinct-parts : (xs ys : List ℕ) → Distinct (xs ++ ys) → Distinct ys
Distinct-parts [] ys d = d
Distinct-parts (x ∷ xs) ys (f, d) = Distinct-parts xs ys d

-- The last cell of a list is none of another.
last_cell-IsFresh :
    (cell : ℕ) (gets puts : List ℕ)
    → IsFresh cell (gets ++ puts)
    → Distinct (gets ++ puts)
    → IsFresh (last_cell cell puts) gets
last_cell-IsFresh cell [] puts f d = tt
last_cell-IsFresh cell (g ∷ gets) puts (n, f) (h, d) =
    let apart = IsFresh-last g cell puts (λ e. n (sym e)) (IsFresh-parts g gets puts h).1 in
    ((λ e. apart (sym e)), last_cell-IsFresh cell gets puts f d)

pub create-Holds :
    (maxlen linkoff : ℕ) (memory : Memory) → Holds (create maxlen linkoff memory) [] []
unfolding create
create-Holds maxlen linkoff memory = record {
  g_chain =
      write_other (write memory head1 0) head2 head1 0 (λ e. omega (arith, e))
      ∙ write_self memory head1 0;
  p_chain = write_self (write memory head1 0) head2 0;
  tail = refl;
  count = refl;
  apart = (((λ e. omega (arith, e)), tt), (tt, tt));
  locals = tt;
  heads = (inl refl, inr refl);
}

last_cell-snoc : (cell a : ℕ) (xs : List ℕ) → last_cell cell (xs ++ a ∷ []) ≡ a
last_cell-snoc cell a [] = refl
last_cell-snoc cell a (x ∷ xs) = last_cell-snoc x a xs

put-Locals :
    (c : Consumer) (q r : Queue) (gets : List ℕ)
    → r.get_head ≡ q.get_head
    → r.put_head ≡ q.put_head
    → Locals c q gets
    → Locals c r gets
put-Locals idle q r gets e f l = tt
put-Locals (swapping old) q r gets e f (n, h) = (n, e ∙ h ∙ sym f)
put-Locals (swapped cnt) q r gets e f l = l

-- The state that a put leads to, if it does not wait.
abbrev put_state : ℕ → Queue → Queue
put_state link q = record q {
  memory = write (write q.memory link 0) q.put_tail link;
  put_tail = link;
  msg_cnt = q.msg_cnt + 1;
}

put_state-Holds :
    (link : ℕ) (q : Queue) (gets puts : List ℕ)
    → link ≢ 0
    → IsFresh link (cells q gets puts)
    → Holds q gets puts
    → Holds (put_state link q) gets (puts ++ link ∷ [])
put_state-Holds link q gets puts z (n, (m, f)) w =
    let (h, (k, d)) = w.apart in
    let (lg, lp) = IsFresh-parts link gets puts f in
    let (hg, hp) = IsFresh-parts (get_cell q.consumer q.get_head) gets puts h.1 in
    let (kg, kp) = IsFresh-parts q.put_head gets puts k in
    let tail = last_cell q.put_head puts in
    record {
      g_chain =
          subst
            (λ t.
              Chain (write (write q.memory link 0) t link) (get_cell q.consumer q.get_head) gets)
            (sym w.tail)
            (Chain-write (write q.memory link 0) tail link (get_cell q.consumer q.get_head) gets
              (IsFresh-last (get_cell q.consumer q.get_head) q.put_head puts h.0 hp)
              (last_cell-IsFresh q.put_head gets puts k d)
              (Chain-write q.memory link 0 (get_cell q.consumer q.get_head) gets (λ e. n (sym e)) lg
                w.g_chain));
      p_chain =
          subst (λ t. Chain (write (write q.memory link 0) t link) q.put_head (puts ++ link ∷ []))
            (sym w.tail)
            (Chain-snoc q.memory link q.put_head puts z m lp kp (Distinct-parts gets puts d)
              w.p_chain);
      tail = sym (last_cell-snoc q.put_head link puts);
      count = omega (arith, w.count, length-append puts (link ∷ []));
      apart =
          subst (λ l. Distinct (get_cell q.consumer q.get_head ∷ q.put_head ∷ l))
            (append_assoc gets puts (link ∷ []))
            (Distinct-snoc (cells q gets puts) link (n, (m, f)) w.apart);
      locals = put-Locals q.consumer q (put_state link q) gets refl refl w.locals;
      heads = w.heads;
    }

-- A put that does not wait hangs its message behind the others.
pub put-Holds :
    (msg : ℕ) (q r : Queue) (gets puts : List ℕ)
    → msg + q.linkoff ≢ 0
    → IsFresh (msg + q.linkoff) (cells q gets puts)
    → Holds q gets puts
    → put msg q ≡ some r
    → Holds r gets (puts ++ (msg + q.linkoff) ∷ [])
unfolding put
put-Holds msg q r gets puts z f w e =
    let same : put_state (msg + q.linkoff) q ≡ r = ground (arith, e) in
    subst (λ s. Holds s gets (puts ++ (msg + q.linkoff) ∷ [])) same
      (put_state-Holds (msg + q.linkoff) q gets puts z f w)
