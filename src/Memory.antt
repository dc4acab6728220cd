-- ===== src/Memory.antt =====
-- The objects that the library allocates, and what it sees of the world outside.
--
-- A `cmd_exec *` or a `connection *` is a number, and `Memory` is the heap that it points into: an
-- object that was freed is `none`, and using it is a fault (`none` of the monad `M`). hiredis and
-- the user's callbacks are outside src/: a call of them is an `Event`, and their answers are
-- functions of all events so far (`Driver`), so that they may depend on the whole history.
mod Defs
mod Monad
pub mod Laws
pub mod Members
pub use Defs.*
pub use Monad.*
