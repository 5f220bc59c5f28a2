-- ===== src/Types.antt =====
-- The crate raspen-types: the protocol's messages, phases, events, effects, configuration and state.
pub mod Messages
pub mod Phases
pub mod Configs
pub mod States
pub mod Names
unfoldable pub use Messages.*
pub use Phases.*
unfoldable pub use Configs.*
pub use States.*
