-- ===== src/Rpc/Decimal.antt =====
-- `strconv.ParseUint` in base 10, and that it reads what `%d` prints.
-- `strconv.ParseUint(text, 10, 64)`
use sudharma.Base.{
  All, Bool-cases, Bytes, Option, [], ap, arith, false, if◌then◌else◌, inl, inr, is_empty, length,
  ltb, nat_eq, none, refl, some, suc, true, u64_mod, zero, ℕ, ◌%◌, ◌*◌, ◌+◌, ◌-◌, ◌/◌, ◌<◌, ◌∙◌,
  ◌∷◌, ◌≡◌, ◌≤◌,
}
use sudharma.Node.Sync.{read_digits}
use sudharma.Transactions.Identity.{decimal, emit_digits}

unfoldable pub parse_uint : Bytes → Option ℕ
parse_uint text =
    if is_empty text
    then none
    else elim (read_digits text 0) [ none ↦ none | some n ↦ if ltb n u64_mod then some n else none ]

-- The first number with more than `rounds` digits.
abbrev power_of_ten : ℕ → ℕ
power_of_ten zero = 1
power_of_ten (suc rounds) = 10 * power_of_ten rounds

digit_read :
    (n value : ℕ) (out : Bytes)
    → n < 10
    → read_digits ((b'0' + n) ∷ out) value ≡ read_digits out (10 * value + n)
unfolding read_digits
digit_read n value out h =
    let same : 10 * value + (b'0' + n - b'0') ≡ 10 * value + n = omega arith in
    ground (arith, ap (read_digits out) same)

read-emit :
    (rounds n : ℕ) (out : Bytes)
    → n < power_of_ten (suc rounds)
    → read_digits (emit_digits (suc rounds) n out) 0 ≡ read_digits out n
unfolding emit_digits
read-emit zero n out h =
    let small : 10 * 0 + n % 10 ≡ n = omega arith in
    let last : nat_eq (n / 10) 0 ≡ true = ground arith in
    rw last (digit_read (n % 10) 0 out (omega arith) ∙ ap (read_digits out) small)
read-emit (suc rounds) n out h = elim (Bool-cases (nat_eq (n / 10) 0)) [
  | inl e ↦
      let small : 10 * 0 + n % 10 ≡ n = ground (arith, e) in
      rw e (digit_read (n % 10) 0 out (omega arith) ∙ ap (read_digits out) small)
  | inr e ↦
      let whole : 10 * (n / 10) + n % 10 ≡ n = omega arith in
      rw e (
        read-emit rounds (n / 10) ((b'0' + n % 10) ∷ out) (omega arith)
        ∙ digit_read (n % 10) (n / 10) out (omega arith)
        ∙ ap (read_digits out) whole)
]

-- A decimal digit.
abbrev pub IsDigit : ℕ → Type 0
IsDigit c = (b'0' ≤ c) × (c ≤ b'9')

emit_digits-IsDigit :
    (rounds n : ℕ) (out : Bytes) → All IsDigit out → All IsDigit (emit_digits rounds n out)
unfolding emit_digits
emit_digits-IsDigit zero n out h = h
emit_digits-IsDigit (suc rounds) n out h =
    let digit : IsDigit (b'0' + n % 10) = (omega arith, omega arith) in
    elim (Bool-cases (nat_eq (n / 10) 0)) [
      | inl e ↦ rw e (digit, h)
      | inr e ↦ rw e (emit_digits-IsDigit rounds (n / 10) ((b'0' + n % 10) ∷ out) (digit, h))
    ]

length-emit_digits :
    (rounds n : ℕ) (out : Bytes) → length (emit_digits rounds n out) ≤ rounds + length out
unfolding emit_digits
length-emit_digits zero n out = omega arith
length-emit_digits (suc rounds) n out =
    ground (arith, length-emit_digits rounds (n / 10) ((b'0' + n % 10) ∷ out))

decimal_lem : (n : ℕ) → decimal n ≡ emit_digits 20 n []
unfolding decimal emit_digits
decimal_lem n = refl

pub decimal-IsDigit : (n : ℕ) → All IsDigit (decimal n)
decimal-IsDigit n = rw (decimal_lem n) (emit_digits-IsDigit 20 n [] tt)

pub length-decimal : (n : ℕ) → length (decimal n) ≤ 20
length-decimal n = rw (decimal_lem n) (length-emit_digits 20 n [])

pub read_digits-decimal : (n : ℕ) → n < u64_mod → read_digits (decimal n) 0 ≡ some n
unfolding read_digits
read_digits-decimal n h = rw (decimal_lem n) (read-emit 19 n [] (omega arith))

emit_some : (rounds n d : ℕ) (out : Bytes) → is_empty (emit_digits rounds n (d ∷ out)) ≡ false
unfolding emit_digits
emit_some zero n d out = refl
emit_some (suc rounds) n d out = elim (Bool-cases (nat_eq (n / 10) 0)) [
  | inl e ↦ rw e refl
  | inr e ↦ rw e (emit_some rounds (n / 10) (b'0' + n % 10) (d ∷ out))
]

emit_digits-not_empty : (rounds n : ℕ) → is_empty (emit_digits (suc rounds) n []) ≡ false
unfolding emit_digits
emit_digits-not_empty rounds n = elim (Bool-cases (nat_eq (n / 10) 0)) [
  | inl e ↦ rw e refl
  | inr e ↦ rw e (emit_some rounds (n / 10) (b'0' + n % 10) [])
]

decimal_some : (n : ℕ) → is_empty (decimal n) ≡ false
decimal_some n = rw (decimal_lem n) (emit_digits-not_empty 19 n)

-- A uint64 is read back from its decimal digits.
pub parse_uint-decimal : (n : ℕ) → n < u64_mod → parse_uint (decimal n) ≡ some n
unfolding parse_uint
parse_uint-decimal n h = ground (arith, decimal_some n, read_digits-decimal n h)
