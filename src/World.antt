-- ===== src/World.antt =====
-- The objects of realtime/_async/client.py, channel.py and push.py on one store, with the tasks of
-- the event loop and the answers of the web socket. An operation runs from its call to its end: what
-- other tasks do while it waits for the socket is not modelled.
mod Objects
mod Action
pub mod Keeps
unfoldable pub use Objects.{put_at}
pub use Objects.*
pub use Action.*
