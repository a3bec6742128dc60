-- ===== src/World.antt =====
-- What the services share: the database, the queues, the clock, the generators and the answers of
-- the outside world, as one record; and the calls that read and change it.
mod State
mod Monad
mod Repository
pub mod Frame
unfoldable pub use State.*
unfoldable pub use Monad.*
unfoldable pub use Repository.*
