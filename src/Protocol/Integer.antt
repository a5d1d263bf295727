-- ===== src/Protocol/Integer.antt =====
-- `parse_integer` of src/protocol/message_parser.cpp, and `std::to_string` on a `long` that is not
-- negative. Overflow of a `long` is undefined in C++; the model wraps at 2^63, and `parse_integer`
-- is shown to stay clear of it.
use native.Mathlib.Nat.{
  pow-suc, one-le-pow, pow-le-pow_right, mod-eq_of_lt, mul-le-mul_right, mul-le-mul_left,
}
use market_networks.Base.{
  All, All-append, Bool, Bool-cases, Option, Text, [], ap, arith, if◌then◌else◌, inl, inr, leb,
  length, length-append, ltb, none, some, suc, true, zero, ℕ, ◌%◌, ◌&&◌, ◌*◌, ◌++◌, ◌+◌, ◌-◌, ◌/◌,
  ◌<◌, ◌==◌, ◌^◌, ◌||◌, ◌↔◌, ◌∙◌, ◌∷◌, ◌≡◌, ◌≤◌,
}

-- One more than the largest `long`.
abbrev pub long_mod : ℕ
long_mod = 2 ^ 63

-- std::isdigit
unfoldable pub is_digit : ℕ → Bool
is_digit c = leb 48 c && leb c 57

parse_digits : ℕ → Text → Option ℕ
parse_digits value [] = some value
parse_digits value (c ∷ cs) =
    if is_digit c then parse_digits ((value * 10 + (c - 48)) % long_mod) cs else none

unfoldable pub parse_integer : Text → Option ℕ
unfolding parse_digits is_digit
parse_integer text = if length text == 0 || ltb 18 (length text) then none else parse_digits 0 text

-- The digits of `n`, most significant first, on fuel that is more than their number.
print_digits : ℕ → ℕ → Text
print_digits zero n = []
print_digits (suc fuel) n =
    let more = print_digits fuel (n / 10) ++ (48 + n % 10) ∷ [] in
    if ltb n 10 then (48 + n) ∷ [] else more

unfoldable pub to_string : ℕ → Text
unfolding print_digits
to_string n = print_digits (suc n) n

-- The number that a text of digits denotes, by place value.
abbrev pub decimal : Text → ℕ
decimal [] = 0
decimal (c ∷ cs) = (c - 48) * 10 ^ length cs + decimal cs

abbrev pub IsDigits : Text → Type 0
IsDigits t = All (λ c. is_digit c ≡ true) t

-- The range of what `parse_integer` accepts.
abbrev pub integer_limit : ℕ
integer_limit = 10 ^ 18

pow_ten-suc : (n : ℕ) → 10 ^ suc n ≡ 10 * 10 ^ n
pow_ten-suc n = omega (arith, pow-suc 10 n)

pow_ten-pos : (n : ℕ) → 1 ≤ 10 ^ n
pow_ten-pos n = one-le-pow n 10 (omega arith)

digit_range : (c : ℕ) → is_digit c ≡ true → (48 ≤ c) × (c ≤ 57)
unfolding is_digit
digit_range c h = ground arith

pub decimal-lt : (t : Text) → IsDigits t → decimal t < 10 ^ length t
decimal-lt [] h = omega arith
decimal-lt (c ∷ cs) h =
    let small : (c - 48) * 10 ^ length cs ≤ 9 * 10 ^ length cs =
      mul-le-mul_right (10 ^ length cs) (omega (arith, digit_range c h.0)) in
    omega (arith, pow_ten-suc (length cs), decimal-lt cs h.1)

-- One round of the loop does not wrap if the whole number fits.
parse_digits-decimal :
    (value : ℕ) (t : Text)
    → IsDigits t
    → value * 10 ^ length t + decimal t < long_mod
    → parse_digits value t ≡ some (value * 10 ^ length t + decimal t)
unfolding parse_digits
parse_digits-decimal value [] h fits = ap some (omega arith)
parse_digits-decimal value (c ∷ cs) h fits =
    rw (h.0, parse_digits, mod-eq_of_lt no_wrap)
      (parse_digits-decimal next cs h.1 (omega (arith, regroup)) ∙ ap some (omega (arith, regroup)))
  where
    next : ℕ
    next = value * 10 + (c - 48)

    regroup :
        next * 10 ^ length cs + decimal cs
        ≡ value * 10 ^ suc (length cs) + ((c - 48) * 10 ^ length cs + decimal cs)
    regroup = rw (pow_ten-suc (length cs)) (omega arith)

    no_wrap : next < long_mod
    no_wrap = omega (arith, regroup, mul-le-mul_left next (pow_ten-pos (length cs)))

parse_digits-some-IsDigits :
    (value : ℕ) (t : Text) {n : ℕ} → parse_digits value t ≡ some n → IsDigits t
unfolding parse_digits
parse_digits-some-IsDigits value [] h = tt
parse_digits-some-IsDigits value (c ∷ cs) {n} h =
    ground (arith, parse_digits-some-IsDigits ((value * 10 + (c - 48)) % long_mod) cs {n = n})

short-lt : (t : Text) → length t ≤ 18 → 10 ^ length t ≤ integer_limit
short-lt t h = pow-le-pow_right (omega arith) h

-- What `parse_integer` accepts: one to eighteen digits and nothing else.
abbrev pub IsInteger : Text → Type 0
IsInteger t = (0 < length t) × (length t ≤ 18) × IsDigits t

pub parse_integer-decimal : (t : Text) → IsInteger t → parse_integer t ≡ some (decimal t)
unfolding parse_integer
parse_integer-decimal t (pos, short, ds) =
    ground (arith, parse_digits-decimal 0 t ds (omega (arith, decimal-lt t ds, short-lt t short)))

pub parse_integer-some-IsInteger : (t : Text) {n : ℕ} → parse_integer t ≡ some n → IsInteger t
unfolding parse_integer
parse_integer-some-IsInteger t {n} h =
    (ground arith, ground arith, parse_digits-some-IsDigits 0 t {n = n} (ground arith))

-- A text is accepted exactly when it is one to eighteen decimal digits, the result is then the
-- number that it denotes by place value, and it is below 10^18: no step of the loop overflowed.
pub parse_integer_iff :
    (t : Text) (n : ℕ)
    → (parse_integer t ≡ some n) ↔ (IsInteger t × (decimal t ≡ n) × (n < integer_limit))
parse_integer_iff t n = (
  λ h. accepted h (parse_integer-some-IsInteger t h),
  λ (d, e, _). parse_integer-decimal t d ∙ ap some e,
)
  where
    accepted :
        parse_integer t ≡ some n → IsInteger t → IsInteger t × (decimal t ≡ n) × (n < integer_limit)
    accepted h d =
        let e : decimal t ≡ n = cc (parse_integer-decimal t d) in
        (d, e, omega (arith, decimal-lt t d.2, short-lt t d.1))

decimal-snoc : (t : Text) (c : ℕ) → decimal (t ++ c ∷ []) ≡ decimal t * 10 + (c - 48)
decimal-snoc [] c = omega arith
decimal-snoc (d ∷ ds) c =
    let longer : length (ds ++ c ∷ []) ≡ suc (length ds) =
      omega (arith, length-append ds (c ∷ [])) in
    rw (decimal-snoc ds c, longer)
      (omega (arith, ap (λ (t : ℕ). (d - 48) * t) (pow_ten-suc (length ds))))

print_digits-decimal : (fuel n : ℕ) → n < fuel → decimal (print_digits fuel n) ≡ n
unfolding print_digits
print_digits-decimal zero n h = absurd (omega arith)
print_digits-decimal (suc fuel) n h = ground (
  arith,
  print_digits-decimal fuel (n / 10),
  decimal-snoc (print_digits fuel (n / 10)) (48 + n % 10),
)

print_digits-IsDigits : (fuel n : ℕ) → IsDigits (print_digits fuel n)
unfolding print_digits is_digit
print_digits-IsDigits zero n = tt
print_digits-IsDigits (suc fuel) n = elim (Bool-cases (ltb n 10)) [
  | inl small ↦ rw small (ground arith, tt)
  | inr big ↦ rw big (
      All-append (λ c. is_digit c ≡ true) (print_digits fuel (n / 10)) ((48 + n % 10) ∷ [])
        (print_digits-IsDigits fuel (n / 10)) (ground arith, tt))
]

print_digits-length : (fuel n k : ℕ) → n < 10 ^ suc k → length (print_digits fuel n) ≤ suc k
unfolding print_digits
print_digits-length zero n k h = omega arith
print_digits-length (suc fuel) n zero h = ground arith
print_digits-length (suc fuel) n (suc k) h = ground (
  arith,
  print_digits-length fuel (n / 10) k,
  pow_ten-suc (suc k),
  length-append (print_digits fuel (n / 10)) ((48 + n % 10) ∷ []),
)

print_digits-pos : (fuel n : ℕ) → 0 < length (print_digits (suc fuel) n)
unfolding print_digits
print_digits-pos fuel n =
    ground (arith, length-append (print_digits fuel (n / 10)) ((48 + n % 10) ∷ []))

-- Any number is printed in decimal digits that denote it.
pub to_string_lem : (n : ℕ) → IsDigits (to_string n) × (decimal (to_string n) ≡ n)
unfolding to_string
to_string_lem n = (print_digits-IsDigits (suc n) n, print_digits-decimal (suc n) n (omega arith))

pub to_string-IsInteger : (n : ℕ) → n < integer_limit → IsInteger (to_string n)
unfolding to_string
to_string-IsInteger n h =
    (print_digits-pos n n, print_digits-length (suc n) n 17 h, print_digits-IsDigits (suc n) n)

-- A number below 10^18 that is printed reads back as itself.
pub parse_integer-to_string : (n : ℕ) → n < integer_limit → parse_integer (to_string n) ≡ some n
parse_integer-to_string n h =
    parse_integer-decimal (to_string n) (to_string-IsInteger n h) ∙ ap some (to_string_lem n).1
