-- ===== src/Text/Decimal.antt =====
-- Python's `str` of a number, and `int` of what it gives.
use Prim.Native.Char.{code, Char}
use Prim.Native.String.{[] as no_chars, ◌∷◌ as ◌∷ₛ◌}
use docker_jenkins_orchestra.Prelude.{
  ℕ, zero, suc, ◌+◌, ◌*◌, ◌/◌, ◌%◌, ◌≤◌, ◌<◌, String, ◌≡◌, refl, sym, ap, ◌∙◌, ◌⊎◌, inl, inr, Bool,
  true, false, ◌&&◌, some, List, [], ◌∷◌, arith, ltb, leb, nat_beq_iff, leb_iff, ltb_iff, ◌==◌,
  nat_eq, string_eq, Bool-cases, option_eq, pair_eq, length,
}
use docker_jenkins_orchestra.Text.Strings.{
  is_empty, rstrip, signed_digits, lstrip, is_space, split, int_text, strip, rsplit_first,
  digits_from,
}

abbrev digits : List Char
digits = "0" ∷ "1" ∷ "2" ∷ "3" ∷ "4" ∷ "5" ∷ "6" ∷ "7" ∷ "8" ∷ "9" ∷ []

abbrev nth : List Char → ℕ → Char
nth [] n = "0"
nth (c ∷ cs) zero = c
nth (c ∷ cs) (suc n) = nth cs n

abbrev pub digit : ℕ → Char
digit = nth digits

-- the digits of a number in front of a text, on fuel for the digits
abbrev pub digits_onto : ℕ → ℕ → String → String
digits_onto zero n rest = rest
digits_onto (suc fuel) n rest = elim (ltb n 10) [
  | true ↦ ◌∷ₛ◌ (digit n) rest
  | false ↦ digits_onto fuel (n / 10) (◌∷ₛ◌ (digit (n % 10)) rest)
]

-- A number has fewer digits than its successor.
unfoldable pub decimal_onto : ℕ → String → String
decimal_onto n rest = digits_onto (suc n) n rest

-- `str(n)`
unfoldable pub decimal : ℕ → String
unfolding decimal_onto
decimal n = decimal_onto n no_chars

abbrev Consecutive : ℕ → List Char → Type 0
Consecutive k [] = Unit
Consecutive k (c ∷ cs) = (code c ≡ k) × Consecutive (k + 1) cs

code-nth : (k n : ℕ) (cs : List Char) → Consecutive k cs → n < length cs → code (nth cs n) ≡ k + n
code-nth k n [] h lt = absurd (omega arith)
code-nth k zero (c ∷ cs) (e, h) lt = omega (arith, e)
code-nth k (suc n) (c ∷ cs) (e, h) lt = omega (arith, code-nth (k + 1) n cs h (omega arith))

in_order : Consecutive b'0' digits
in_order = (refl, (refl, (refl, (refl, (refl, (refl, (refl, (refl, (refl, (refl, tt))))))))))

code-digit : (n : ℕ) → n < 10 → code (digit n) ≡ b'0' + n
code-digit n h = code-nth b'0' n digits in_order (omega arith)

digit-is_digit : (n : ℕ) → n < 10 → (leb b'0' (code (digit n)) && leb (code (digit n)) b'9') ≡ true
digit-is_digit n h =
    ground (arith, code-digit n h, leb_iff b'0' (code (digit n)), leb_iff (code (digit n)) b'9')

-- reading a digit
digits_from-digit :
    (n acc : ℕ) (b : Bool) (s : String) {total : ℕ}
    → n < 10
    → acc * 10 + n ≡ total
    → digits_from acc b (◌∷ₛ◌ (digit n) s) ≡ digits_from total true s
digits_from-digit n acc b s h e =
    rw (digit-is_digit n h, digits_from)
      (ap (λ k. digits_from k true s) (omega (arith, code-digit n h, e)))

digits_from-onto :
    (fuel n : ℕ) (b : Bool) (rest : String)
    → n < fuel
    → digits_from 0 b (digits_onto fuel n rest) ≡ digits_from n true rest
digits_from-onto zero n b rest h = absurd (omega arith)
digits_from-onto (suc fuel) n b rest h = elim (Bool-cases (ltb n 10)) [
  | inl small ↦
      rw (small, digits_onto) (digits_from-digit n 0 b rest ((ltb_iff n 10).0 small) (omega arith))
  | inr large ↦
      let big : 10 ≤ n = ground (arith, ltb_iff n 10) in
      let next = ◌∷ₛ◌ (digit (n % 10)) rest in
      rw (large, digits_onto)
        (digits_from-onto fuel (n / 10) b next (omega arith)
          ∙ digits_from-digit (n % 10) (n / 10) true rest (omega arith) (omega arith))
]

-- A number in front of a text begins with a digit.
onto_head :
    (fuel n : ℕ) (s : String)
    → (k : ℕ) × (t : String) × (k < 10) × (digits_onto (suc fuel) n s ≡ ◌∷ₛ◌ (digit k) t)
onto_head zero n s = elim (Bool-cases (ltb n 10)) [
  | inl small ↦ (n, s, (ltb_iff n 10).0 small, rw (small, digits_onto))
  | inr large ↦ (n % 10, s, omega arith, rw (large, digits_onto))
]
onto_head (suc fuel) n s = elim (Bool-cases (ltb n 10)) [
  | inl small ↦ (n, s, (ltb_iff n 10).0 small, rw (small, digits_onto))
  | inr large ↦
      let (k, t, h, e) = onto_head fuel (n / 10) (◌∷ₛ◌ (digit (n % 10)) s) in
      (k, t, h, rw (large, digits_onto) e)
]

-- What every digit in front of two texts keeps, a number in front of them keeps.
module _ (R : String → String → Type 0)
    (step : (n : ℕ)
      → n < 10
      → (s t : String) → R s t
      → R (◌∷ₛ◌ (digit n) s) (◌∷ₛ◌ (digit n) t)) where
  onto_step : (fuel n : ℕ) (s t : String) → R s t → R (digits_onto fuel n s) (digits_onto fuel n t)
  onto_step zero n s t h = h
  onto_step (suc fuel) n s t h = elim (Bool-cases (ltb n 10)) [
    | inl small ↦ rw (small, digits_onto) (step n ((ltb_iff n 10).0 small) s t h)
    | inr large ↦
        rw (large, digits_onto) (onto_step fuel (n / 10) _ _ (step (n % 10) (omega arith) s t h))
  ]

-- a digit is neither a space nor a mark outside the digits
digit-ne_mark :
    (n mark : ℕ) → n < 10 → (mark < b'0') ⊎ (b'9' < mark) → (code (digit n) == mark) ≡ false
digit-ne_mark n mark h outside = ground (arith, code-digit n h, nat_beq_iff (code (digit n)) mark)

digit-ne_space : (n : ℕ) → n < 10 → is_space (code (digit n)) ≡ false
digit-ne_space n h = ground (
  arith,
  code-digit n h,
  leb_iff (code (digit n)) 32,
  leb_iff 8192 (code (digit n)),
  leb_iff (code (digit n)) 13,
)

module _ (mark : ℕ) (outside : (mark < b'0') ⊎ (b'9' < mark)) where
  pub split-decimal_onto :
      (n : ℕ) (s a : String) (rest : List String)
      → split mark s ≡ a ∷ rest
      → split mark (decimal_onto n s) ≡ decimal_onto n a ∷ rest
  unfolding split decimal_onto
  split-decimal_onto n s a rest =
      onto_step (λ x y. split mark x ≡ y ∷ rest)
        (λ d small x y h. rw (digit-ne_mark d mark small outside) (rw h)) (suc n) n s a

  pub rsplit_first-decimal_onto :
      (n : ℕ) (s a b : String)
      → rsplit_first mark s ≡ some (a, b)
      → rsplit_first mark (decimal_onto n s) ≡ some (decimal_onto n a, b)
  unfolding rsplit_first decimal_onto
  rsplit_first-decimal_onto n s a b =
      onto_step (λ x y. rsplit_first mark x ≡ some (y, b)) (λ d small x y h. rw h) (suc n) n s a

lstrip-digit : (k : ℕ) (t : String) → k < 10 → lstrip (◌∷ₛ◌ (digit k) t) ≡ ◌∷ₛ◌ (digit k) t
unfolding lstrip
lstrip-digit k t h = rw (digit-ne_space k h)

pub rstrip-decimal_onto :
    (n : ℕ) (s : String) → rstrip s ≡ s → rstrip (decimal_onto n s) ≡ decimal_onto n s
unfolding rstrip decimal_onto
rstrip-decimal_onto n s =
    onto_step (λ x y. rstrip x ≡ y) (λ d small x y h. rw (digit-ne_space d small, h)) (suc n) n s s

pub strip-decimal_onto :
    (n : ℕ) (s : String) → rstrip s ≡ s → strip (decimal_onto n s) ≡ decimal_onto n s
unfolding strip decimal_onto
strip-decimal_onto n s h =
    let (k, t, small, e) = onto_head n n s in
    let untouched : lstrip (decimal_onto n s) ≡ decimal_onto n s =
      ap lstrip e ∙ lstrip-digit k t small ∙ sym e in
    ap rstrip untouched ∙ rstrip-decimal_onto n s h

pub is_empty-decimal_onto : (n : ℕ) (s : String) → is_empty (decimal_onto n s) ≡ false
unfolding decimal_onto
is_empty-decimal_onto n s = let (k, t, small, e) = onto_head n n s in ap is_empty e

signed_digits-digit :
    (k : ℕ) (t : String) {n : ℕ}
    → k < 10
    → digits_from 0 false (◌∷ₛ◌ (digit k) t) ≡ some n
    → signed_digits (◌∷ₛ◌ (digit k) t) ≡ some (false, n)
signed_digits-digit k t h e =
    rw (digit-ne_mark k b'-' h (inl (omega arith)), signed_digits)
      (rw (digit-ne_mark k b'+' h (inl (omega arith))) (rw e))

-- `int(str(n))` is the number again.
pub int_text-decimal : (n : ℕ) → int_text (decimal n) ≡ some (false, n)
unfolding int_text decimal rstrip decimal_onto
int_text-decimal n =
    let (k, t, small, e) = onto_head n n no_chars in
    let read : digits_from 0 false (◌∷ₛ◌ (digit k) t) ≡ some n =
      ap (digits_from 0 false) (sym e) ∙ digits_from-onto (suc n) n false no_chars (omega arith) in
    ap signed_digits (strip-decimal_onto n no_chars refl)
    ∙ ap signed_digits e
    ∙ signed_digits-digit k t small read
