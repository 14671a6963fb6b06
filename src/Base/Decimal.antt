-- ===== src/Base/Decimal.antt =====
-- `%d` and `atoi` of libc, on the numbers that the C code stores in unsigned fields.
use Prim.Native.Nat.{ℕ, zero, suc, ◌+◌, ◌-◌, ◌*◌, ◌/◌, ◌%◌, ◌^◌, ◌<◌}
use mathlib.Core.Path.{◌≡◌, ◌∙◌, ap}
use mathlib.Core.Bool.{Bool, true, ◌&&◌, ◌||◌}
use mathlib.Core.Logic.{inl, inr}
use mathlib.Core.List.{[], ◌∷◌}
use native.Mathlib.Omega.{arith}
use native.Mathlib.Nat.{mod-eq_of_lt, pow-suc}
use rate_engine.Base.Tests.{Bool-cases, ltb, leb, ◌==◌, if◌then◌else◌}
use rate_engine.Base.Int.{ℤ, pos, neg}
use rate_engine.Base.Strings.{Text}

-- The digits of `n` in front of a text; at most `fuel + 1` of them.
unfoldable pub emit : ℕ → ℕ → Text → Text
emit zero n txt = (b'0' + n % 10) ∷ txt
emit (suc fuel) n txt =
    let longer = emit fuel (n / 10) ((b'0' + n % 10) ∷ txt) in
    if ltb n 10 then (b'0' + n % 10) ∷ txt else longer

-- `%d`, for a number that an `int` holds: at most ten digits.
unfoldable pub print_d : ℕ → Text
print_d n = emit 9 n []

-- `%d`, of the 32 bits of an unsigned number.
unfoldable pub print_unsigned : ℕ → Text
print_unsigned n = if ltb n (2 ^ 31) then print_d n else b'-' ∷ print_d (2 ^ 32 - n)

abbrev pub is_digit : ℕ → Bool
is_digit c = leb b'0' c && leb c b'9'

unfoldable pub read_digits : ℕ → Text → ℕ
read_digits n [] = n
read_digits n (c ∷ txt) =
    let more = read_digits (n * 10 + (c - b'0')) txt in if is_digit c then more else n

-- Blanks and a sign stand before the digits.
unfoldable pub atoi : Text → ℤ
atoi [] = pos 0
atoi (c ∷ txt) =
    let later = atoi txt in
    if (c == 32) || (leb 9 c && leb c 13)
    then later
    else if c == b'-'
    then neg (pos (read_digits 0 txt))
    else if c == b'+'
    then pos (read_digits 0 txt)
    else pos (read_digits 0 (c ∷ txt))

-- An `int` stored in an unsigned field of `w` bits.
unfoldable pub unsigned : ℕ → ℤ → ℕ
unsigned w (pos n) = n % 2 ^ w
unsigned w (ℤ.negsuc n) = 2 ^ w - 1 - n % 2 ^ w

read_digits-digit :
    (n d m : ℕ) (txt : Text)
    → d < 10
    → n * 10 + d ≡ m
    → read_digits n ((b'0' + d) ∷ txt) ≡ read_digits m txt
unfolding read_digits
read_digits-digit n d m txt h e = ground (arith, e)

div-power : (n p m : ℕ) → m ≡ p * 10 → n < m → n / 10 < p
div-power n p m e h = omega (arith, e, h)

read_digits-emit :
    (fuel n : ℕ) (txt : Text)
    → n < 10 ^ suc fuel
    → read_digits 0 (emit fuel n txt) ≡ read_digits n txt
unfolding emit
read_digits-emit zero n txt h = read_digits-digit 0 (n % 10) n txt (omega arith) (omega (arith, h))
read_digits-emit (suc fuel) n txt h =
    let short = read_digits-digit 0 (n % 10) n txt (omega arith) in
    let last = read_digits-digit (n / 10) (n % 10) n txt (omega arith) (omega arith) in
    let q : n / 10 < 10 ^ suc fuel =
      div-power n (10 ^ suc fuel) (10 ^ suc (suc fuel)) (pow-suc 10 (suc fuel)) h in
    let more = read_digits-emit fuel (n / 10) ((b'0' + n % 10) ∷ txt) q in
    ground (arith, short, last, more)

atoi-emit :
    (fuel n : ℕ) (txt : Text) → atoi (emit fuel n txt) ≡ pos (read_digits 0 (emit fuel n txt))
unfolding atoi emit
atoi-emit zero n txt = ground arith
atoi-emit (suc fuel) n txt = ground (arith, atoi-emit fuel (n / 10) ((b'0' + n % 10) ∷ txt))

-- `atoi` reads back what `%d` prints.
pub unsigned-atoi-print_d : (w n : ℕ) → n < 2 ^ w → n < 10 ^ 10 → unsigned w (atoi (print_d n)) ≡ n
unfolding unsigned print_d read_digits
unsigned-atoi-print_d w n h k =
    let read = atoi-emit 9 n [] ∙ ap pos (read_digits-emit 9 n [] k) in
    ap (unsigned w) read ∙ mod-eq_of_lt h

atoi-minus : (txt : Text) → atoi (b'-' ∷ txt) ≡ neg (pos (read_digits 0 txt))
unfolding atoi
atoi-minus txt = λ i. neg (pos (read_digits 0 txt))

unsigned-neg : (m : ℕ) → 0 < m → unsigned 32 (neg (pos m)) ≡ 2 ^ 32 - 1 - (m - 1) % 2 ^ 32
unfolding unsigned
unsigned-neg zero h = absurd (omega (arith, h))
unsigned-neg (suc m) h = ground arith

-- `atoi` reads back the 32 bits, of a number that was printed as a negative one too.
pub unsigned-atoi-print_unsigned : (n : ℕ) → n < 2 ^ 32 → unsigned 32 (atoi (print_unsigned n)) ≡ n
unfolding print_d print_unsigned read_digits
unsigned-atoi-print_unsigned n h = elim (Bool-cases (ltb n (2 ^ 31))) [
  | inl e ↦ rw e (unsigned-atoi-print_d 32 n h (omega (arith, h)))
  | inr e ↦
      let below : 2 ^ 32 - n < 10 ^ 10 = omega (arith, h) in
      let some_left : 0 < 2 ^ 32 - n = omega (arith, h) in
      let read =
        atoi-minus (print_d (2 ^ 32 - n))
        ∙ ap (λ d. neg (pos d)) (read_digits-emit 9 (2 ^ 32 - n) [] below) in
      rw e (ap (unsigned 32) read ∙ unsigned-neg (2 ^ 32 - n) some_left ∙ back n h)
]
  where
    back : (m : ℕ) → m < 2 ^ 32 → 2 ^ 32 - 1 - (2 ^ 32 - m - 1) % 2 ^ 32 ≡ m
    back m k = omega (arith, k)

-- A number of 16 bits is not printed as a negative one.
pub unsigned-atoi-print_short : (n : ℕ) → n < 2 ^ 16 → unsigned 16 (atoi (print_unsigned n)) ≡ n
unfolding print_unsigned
unsigned-atoi-print_short n h =
    let e : ltb n (2 ^ 31) ≡ true = ground (arith, h) in
    rw e (unsigned-atoi-print_d 16 n h (omega (arith, h)))
