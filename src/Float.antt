-- ===== src/Float.antt =====
-- What the code does with a Go `float64`: literals, the four operations, comparisons, and the decay
-- factor `math.Exp(-math.Log(2)*elapsedSeconds/halfLife.Seconds())`. The carrier is a parameter of
-- the development, with the facts of IEEE 754 arithmetic that the code relies on as the fields of
-- `IsFloat`. Rounding is allowed for: no field says that an operation is exact.
mod Laws
mod FixedPoint
pub use Laws.*
unfoldable pub use FixedPoint.*
