-- ===== src/Http/Resume/Reserve.antt =====
-- The growth of the message buffer in src/protocol/http_parser.c: it ends with room enough, and does
-- not hang on the pieces in which the bytes come.
use tinywf.Prelude.{
  ℕ, zero, suc, ◌+◌, ◌*◌, ◌≡◌, refl, sym, ◌∙◌, true, arith, ◌<◌, ◌≤◌, max, ltb, if◌then◌else◌,
  Bool-cases, inl, inr, some,
}
use tinywf.Http.{Parser, msgbuf_init_size}
use tinywf.Http.Append.{double_until, reserve}

double_until-fuel :
    (f g need size : ℕ)
    → 0 < size
    → need ≤ size + f
    → need ≤ size + g
    → double_until f need size ≡ double_until g need size
unfolding double_until
double_until-fuel zero zero need size h a b = refl
double_until-fuel zero (suc g) need size h a b = ground arith
double_until-fuel (suc f) zero need size h a b = ground arith
double_until-fuel (suc f) (suc g) need size h a b =
    ground (arith, double_until-fuel f g need (size * 2))

pub double_until-ge :
    (f need size : ℕ) → 0 < size → need ≤ size + f → need ≤ double_until f need size
unfolding double_until
double_until-ge zero need size h a = omega arith
double_until-ge (suc f) need size h a = ground (arith, double_until-ge f need (size * 2))

double_until-step :
    (g need size : ℕ)
    → 0 < size
    → size < need
    → need ≤ size + g
    → double_until g need size ≡ double_until g need (size * 2)
unfolding double_until
double_until-step zero need size h l a = absurd (omega arith)
double_until-step (suc g) need size h l a =
    ground (arith, double_until-fuel g (suc g) need (size * 2))

double_until-again :
    (f g less more size : ℕ)
    → 0 < size
    → less ≤ more
    → more ≤ size + g
    → double_until g more (double_until f less size) ≡ double_until g more size
unfolding double_until
double_until-again zero g less more size h b a = refl
double_until-again (suc f) g less more size h b a =
    ground (arith, double_until-again f g less more (size * 2), double_until-step g more size)

-- The size of the buffer after `n` more bytes have found room.
unfoldable pub grown : Parser → ℕ → ℕ
grown p n =
    let need = p.msgsize + n + 1 in
    if ltb p.bufsize need
    then double_until need need (max msgbuf_init_size (2 * p.bufsize))
    else p.bufsize

pub reserve-grown :
    (p : Parser) (n : ℕ) → reserve true n p ≡ some (record p { bufsize = grown p n })
unfolding reserve grown
reserve-grown p n = ground arith

pub grown-ge : (p : Parser) (n : ℕ) → p.msgsize + n < grown p n
unfolding grown
grown-ge p n = ground (
  arith,
  double_until-ge (p.msgsize + n + 1) (p.msgsize + n + 1) (max msgbuf_init_size (2 * p.bufsize)),
)

double_until-idle : (f need size : ℕ) → need ≤ size → double_until f need size ≡ size
unfolding double_until
double_until-idle zero need size h = refl
double_until-idle (suc f) need size h = ground arith

le-double_until : (f need size : ℕ) → size ≤ double_until f need size
unfolding double_until
le-double_until zero need size = omega arith
le-double_until (suc f) need size = ground (arith, le-double_until f need (size * 2))

-- Growing for a part and then for the whole is growing for the whole.
double_until-twice :
    (first second base : ℕ)
    → msgbuf_init_size ≤ base
    → first ≤ second
    → let b = double_until first first base in
      (if ltb b second then double_until second second (max msgbuf_init_size (2 * b)) else b)
      ≡ double_until second second base
double_until-twice first second base h le =
    let b = double_until first first base in
    let again = double_until-again first second first second base (omega arith) le (omega arith) in
    let from = le-double_until first first base in
    elim (Bool-cases (ltb b second)) [
      | inl short ↦
          let doubled : max msgbuf_init_size (2 * b) ≡ b * 2 = omega arith in
          rw (short, doubled)
            (sym (double_until-step second second b (omega arith) (ground arith) (omega arith))
              ∙ again)
      | inr enough ↦ rw enough (sym (double_until-idle second second b (ground arith)) ∙ again)
    ]

pub grown-twice :
    (p q : Parser) (m n : ℕ)
    → q.msgsize ≡ p.msgsize + m
    → q.bufsize ≡ grown p m
    → grown q n ≡ grown p (m + n)
unfolding grown
grown-twice p q m n h k =
    let sum : q.msgsize + n + 1 ≡ p.msgsize + (m + n) + 1 = omega arith in
    rw (sum, k)
      (ground (
        arith,
        double_until-twice (p.msgsize + m + 1) (p.msgsize + (m + n) + 1)
            (max msgbuf_init_size (2 * p.bufsize)),
      ))
