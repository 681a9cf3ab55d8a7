-- ===== src/Base/Cents.antt =====
-- A float type to run the code with.
use Prim.Native.Nat.{ℕ, ◌+◌, ◌-◌, ◌*◌, ◌/◌}
use enterprise_angular_nest.Base.Tests.{ltb}
use enterprise_angular_nest.Base.Floats.{Floats}

-- hundredths, with `log` and `pow` left out: enough to run the code
abbrev pub cents : Floats
cents = record {
  Float = ℕ;
  of_nat = λ n. n * 100;
  add = ◌+◌;
  sub = ◌-◌;
  mul = λ a b. (a * b) / 100;
  div = λ a b. (a * 100) / b;
  log = λ a. a;
  pow = λ a b. a;
  lt = ltb;
}
