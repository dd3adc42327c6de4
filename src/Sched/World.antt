-- ===== src/Sched/World.antt =====
-- The state that the threads of a daemon share, and the monad of the functions that work on it.
-- Objects live on typed heaps under pointers; `held` lists the mutexes the running thread owns.
-- What a call of the channel layer (src/ch) gives back is read from `net`, one list for each call.
mod Post
mod Channel
mod Heaps
mod Monad
mod State
pub use Post.*
pub use Channel.*
pub use Heaps.*
pub use Monad.*
pub use State.*
