-- ===== src/Float.antt =====
-- Floating point as an interface: the program's `float` and its arithmetic are a parameter of the
-- model, so that every theorem holds for IEEE doubles, for `nan` too, unless it names a law.
use vaaet.Prelude.{ltb, leb, ℕ, ◌+◌, ◌-◌, ◌*◌, ◌/◌, Bool, true, List}

pub record FloatOps (F : Type 0) : Type 0 where
  pub lt : F → F → Bool
  pub le : F → F → Bool
  pub is_finite : F → Bool
  pub of_nat : ℕ → F
  -- the literal `n / 10000`
  pub literal : ℕ → F
  pub add : F → F → F
  pub sub : F → F → F
  pub mul : F → F → F
  pub div : F → F → F
  pub abs : F → F
  -- `int(x)` of a value that is not negative
  pub trunc : F → ℕ
  -- `round(x, digits)`
  pub round : ℕ → F → F

module _ {F : Type 0} ⦃f : FloatOps F⦄ where
  infix 50 ◌<=◌
  abbrev pub ◌<=◌ : F → F → Bool
  a <= b = f.le a b

-- What the program calls of numpy on a list of values.
pub record NumPy (F : Type 0) : Type 0 where
  pub median : List F → F
  pub mean : List F → F
  pub sort : List F → List F
  pub maximum : List F → F

-- Ten-thousandths without sign, for evaluation at concrete inputs.
abbrev pub ten_thousandths : FloatOps ℕ
ten_thousandths = record {
  lt = ltb;
  le = leb;
  is_finite = λ _. true;
  of_nat = λ n. n * 10000;
  literal = λ n. n;
  add = λ a b. a + b;
  sub = λ a b. a - b;
  mul = λ a b. a * b / 10000;
  div = λ a b. a * 10000 / b;
  abs = λ a. a;
  trunc = λ a. a / 10000;
  round = λ _ a. a;
}
