-- ===== src/Float.antt =====
-- What the program uses of `f64`: the arithmetic and comparison operators, the conversions and the
-- methods of `std`. The type itself is a parameter: a record of operations, taken as an instance.
-- `Laws` holds what IEEE 754 says of them on finite values, `Fixed` a concrete instance.
pub mod Laws
pub mod Order
pub mod Exact
pub mod Fixed
pub mod Ops
unfoldable pub use Ops.*
