-- ===== src/BitOp/Fold.antt =====
-- libs/luabitop/bit.c: BIT_OP takes its arguments from the last one down, against taking them in
-- their order.
use Prim.Native.Nat.{min, max, differ}
use lua_cmake_source.Base.{
  ℕ, zero, suc, ◌+◌, ◌-◌, ◌*◌, ◌/◌, ◌%◌, ◌≤◌, ◌<◌, ◌≡◌, refl, sym, ap, ◌∙◌, arith, List, length,
  bit_and, bit_or, bit_xor,
}
use lua_cmake_source.Base.Int.{from_word32}
use lua_cmake_source.Base.Bits.{bit_and-digit, bit_or-digit, bit_xor-digit}
use lua_cmake_source.LuaValue.{Value}
use lua_cmake_source.BitOp.Args.{Platform, ok, barg}
use lua_cmake_source.BitOp.Module.{op_loop, bit_band, bit_bor, bit_bxor}

-- An operation on words that works digit by digit, and one on digits that may be reordered.
record IsDigitwise (op d : ℕ → ℕ → ℕ) : Type 0 where
  digit : (a b : ℕ) → op a b ≡ op (a / 2) (b / 2) * 2 + d (a % 2) (b % 2)
  none : op 0 0 ≡ 0
  below : (x y : ℕ) → x < 2 → y < 2 → d x y < 2
  swap : (x y z : ℕ) → x < 2 → y < 2 → z < 2 → d (d x y) z ≡ d (d x z) y

module _ (op d : ℕ → ℕ → ℕ) (o : IsDigitwise op d) where
  half : (a b : ℕ) → op a b / 2 ≡ op (a / 2) (b / 2)
  half a b = omega (arith, o.digit a b, o.below (a % 2) (b % 2) (omega arith) (omega arith))

  low : (a b : ℕ) → op a b % 2 ≡ d (a % 2) (b % 2)
  low a b = omega (arith, o.digit a b, o.below (a % 2) (b % 2) (omega arith) (omega arith))

  -- Two operands that come in one after the other can change places.
  op-swap : (n a b c : ℕ) → a ≤ n → b ≤ n → c ≤ n → op (op a b) c ≡ op (op a c) b
  op-swap zero a b c h k l =
      let x : a ≡ 0 = omega arith in
      let y : b ≡ 0 = omega arith in let z : c ≡ 0 = omega arith in rw (x, y, z) refl
  op-swap (suc n) a b c h k l =
      let ih = op-swap n (a / 2) (b / 2) (c / 2) (omega arith) (omega arith) (omega arith) in
      let left : op (op a b) c
          ≡ op (op (a / 2) (b / 2)) (c / 2) * 2 + d (d (a % 2) (b % 2)) (c % 2) =
        o.digit (op a b) c ∙ rw (half a b, low a b) refl in
      let right : op (op a c) b
          ≡ op (op (a / 2) (c / 2)) (b / 2) * 2 + d (d (a % 2) (c % 2)) (b % 2) =
        o.digit (op a c) b ∙ rw (half a c, low a c) refl in
      let last = o.swap (a % 2) (b % 2) (c % 2) (omega arith) (omega arith) (omega arith) in
      left ∙ (rw (ih, last) (sym right))

-- The words behind the first come in, in the order of the arguments.
unfoldable pub forward : (ℕ → ℕ → ℕ) → (ℕ → ℕ) → ℕ → ℕ → ℕ
forward op w zero b = b
forward op w (suc k) b = op (forward op w k b) (w (k + 2))

module _ (op d : ℕ → ℕ → ℕ) (o : IsDigitwise op d) (w : ℕ → ℕ) where
  -- An operand can come in first or last.
  forward-first : (k b c : ℕ) → forward op w k (op b c) ≡ op (forward op w k b) c
  unfolding forward
  forward-first zero b c = refl
  forward-first (suc k) b c =
      let x = forward op w k b in
      let y = w (k + 2) in
      ap (λ (t : ℕ). op t y) (forward-first k b c)
      ∙ op-swap op d o (x + y + c) x c y (omega arith) (omega arith) (omega arith)

  op_loop-forward :
      (p : Platform) (args : List Value) (k b : ℕ)
      → ((i : ℕ) → 2 ≤ i → i ≤ k + 1 → barg p args i ≡ ok (w i))
      → op_loop p op args k b ≡ ok (forward op w k b)
  unfolding op_loop forward
  op_loop-forward p args zero b h = refl
  op_loop-forward p args (suc k) b h =
      let here : suc k + 1 ≡ k + 2 = omega arith in
      rw (here, h (k + 2) (omega arith) (omega arith))
        (op_loop-forward p args k (op b (w (k + 2))) (λ i lo hi. h i lo (omega arith))
          ∙ ap ok (forward-first k b (w (k + 2))))

and_digits : IsDigitwise bit_and min
and_digits = record {
  digit = bit_and-digit;
  none = refl;
  below = λ x y h k. omega arith;
  swap = λ x y z h k l. omega arith;
}

or_digits : IsDigitwise bit_or max
or_digits = record {
  digit = bit_or-digit;
  none = refl;
  below = λ x y h k. omega arith;
  swap = λ x y z h k l. omega arith;
}

-- `differ` on digits, as a remainder.
differ-eq : (x y : ℕ) → x < 2 → y < 2 → differ x y ≡ (x + y) % 2
differ-eq zero y h k = omega arith
differ-eq (suc zero) zero h k = omega arith
differ-eq (suc zero) (suc zero) h k = omega arith
differ-eq (suc zero) (suc (suc y)) h k = absurd (omega arith)
differ-eq (suc (suc x)) y h k = absurd (omega arith)

differ-swap : (x y z : ℕ) → x < 2 → y < 2 → z < 2 → differ (differ x y) z ≡ differ (differ x z) y
differ-swap x y z h k l =
    let xy = differ-eq x y h k in
    let xz = differ-eq x z h l in
    omega (
      arith,
      xy,
      xz,
      differ-eq (differ x y) z (omega arith) l,
      differ-eq (differ x z) y (omega arith) k,
    )

xor_digits : IsDigitwise bit_xor differ
xor_digits = record {
  digit = bit_xor-digit;
  none = refl;
  below = λ x y h k. omega (arith, differ-eq x y h k);
  swap = differ-swap;
}

-- Where the arguments are numbers with the words `w 1`, `w 2` and so on, `band`, `bor` and `bxor`
-- give what the operation gives on the words from the first to the last, though their loop takes
-- the last argument first.
pub bit_op-forward :
    (p : Platform) (args : List Value) (w : ℕ → ℕ)
    → 1 ≤ length args
    → ((i : ℕ) → 1 ≤ i → i ≤ length args → barg p args i ≡ ok (w i))
    → (bit_band p args ≡ ok (from_word32 (forward bit_and w (length args - 1) (w 1))))
      × (bit_bor p args ≡ ok (from_word32 (forward bit_or w (length args - 1) (w 1))))
      × (bit_bxor p args ≡ ok (from_word32 (forward bit_xor w (length args - 1) (w 1))))
unfolding bit_band bit_bor bit_bxor
bit_op-forward p args w some_args h =
    let first = h 1 (omega arith) some_args in
    let k = length args - 1 in
    let others : (i : ℕ) → 2 ≤ i → i ≤ k + 1 → barg p args i ≡ ok (w i) =
      λ i lo hi. h i (omega arith) (omega arith) in
    (
      rw (first, op_loop-forward bit_and min and_digits w p args k (w 1) others) refl,
      rw (first, op_loop-forward bit_or max or_digits w p args k (w 1) others) refl,
      rw (first, op_loop-forward bit_xor differ xor_digits w p args k (w 1) others) refl,
    )
