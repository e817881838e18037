-- ===== src/Compose/Checked.antt =====
-- Conversions that give a value or raise `DockerServiceError`.
use docker_jenkins_orchestra.Prelude.{
  ℕ, suc, ◌+◌, String, ◌≡◌, refl, sym, Bool, true, false, List, [], ◌∷◌, if◌then◌else◌, ◌==◌,
  nat_eq, string_eq, option_eq, pair_eq, any, All,
}
use docker_jenkins_orchestra.Models.Value.{Value, bool, int, negative, str, sequence, mapping}
use docker_jenkins_orchestra.World.{Result, ok, err, Error}

abbrev pub reject {ℓ} : {A : Type ℓ} → String → Result A
reject message = err (Error.adapter_error message)

infixl 10 ◌>>=◌
abbrev pub ◌>>=◌ {ℓ κ} : {A : Type ℓ} {B : Type κ} → Result A → (A → Result B) → Result B
err raised >>= next = err raised
ok value >>= next = next value

infixl 10 ◌>>◌
abbrev pub ◌>>◌ {ℓ κ} : {A : Type ℓ} {B : Type κ} → Result A → Result B → Result B
m >> n = m >>= λ _. n

-- `if condition: raise`
abbrev pub refuse_if : Bool → String → Result (Unit {0})
refuse_if true message = reject message
refuse_if false message = ok tt

-- `[f(x) for x in xs]`, where `f` may raise
abbrev pub each {ℓ κ} : {A : Type ℓ} {B : Type κ} → (A → Result B) → List A → Result (List B)
each f [] = ok []
each f (x ∷ xs) = do y ← f x; ys ← each f xs; ok (y ∷ ys)

-- `value in allowed` for a set of texts: a value that cannot be hashed raises `TypeError`.
abbrev pub text_among : List String → Value → Result Bool
text_among allowed (str s) = ok (any (λ t. t == s) allowed)
text_among allowed (sequence vs) = err (Error.python_error "TypeError" "unhashable type: 'list'")
text_among allowed (mapping es) = err (Error.python_error "TypeError" "unhashable type: 'dict'")
text_among allowed v = ok false

-- `int(value)` of a value that is no text: the sign (true for minus) and the number
abbrev pub number_of : Value → Result (Bool × ℕ)
number_of (bool true) = ok (false, 1)
number_of (bool false) = ok (false, 0)
number_of (int n) = ok (false, n)
number_of (negative n) = ok (true, n + 1)
number_of v = err (Error.python_error "TypeError" "int() argument must be a string or a number")

abbrev pub is_caught : Error → Bool
is_caught (Error.value_error message) = true
is_caught (Error.python_error kind message) = kind == "TypeError"
is_caught e = false

-- `except (ImportError, TypeError, ValueError): raise DockerServiceError(message)`
abbrev pub caught {ℓ} : {A : Type ℓ} → String → Result A → Result A
caught message (ok a) = ok a
caught message (err e) = if is_caught e then reject message else err e

-- a number above 0
abbrev pub positive : String → Bool × ℕ → Result ℕ
positive message (false, suc n) = ok (suc n)
positive message _ = reject message

module _ {ℓ κ} {A : Type ℓ} {B : Type κ} where
  -- What a conversion that succeeds has gone through.
  pub bind-ok :
      (raw : Result A) (next : A → Result B) {value : B}
      → (raw >>= next) ≡ ok value
      → (given : A) × (raw ≡ ok given) × (next given ≡ ok value)
  bind-ok (ok given) next h = (given, refl, h)
  bind-ok (err raised) next h = cc h

pub each-All {ℓ} :
    {A : Type ℓ} {B : Type 0} (f : A → Result B) (P : B → Type 0)
    → ((x : A) (y : B) → f x ≡ ok y → P y)
    → (xs : List A) (ys : List B) → each f xs ≡ ok ys
    → All P ys
each-All f P h [] ys e = let none_left : [] ≡ ys = cc e in rw (sym none_left) tt
each-All f P h (x ∷ xs) ys e =
    let (y, first, e') = bind-ok (f x) _ e in
    let (rest, later, e'') = bind-ok (each f xs) (λ zs. ok (y ∷ zs)) e' in
    let whole : y ∷ rest ≡ ys = cc e'' in rw (sym whole) (h x y first, each-All f P h xs rest later)

pub refuse_if-ok :
    (b : Bool) (message : String) {u : Unit {0}} → refuse_if b message ≡ ok u → b ≡ false
refuse_if-ok true message h = cc h
refuse_if-ok false message h = refl
