-- ===== src/Client/Factories.antt =====
-- What the factories assemble from the options: source/client/factories_impl.{h,cc}.
pub mod Predicates
pub mod Limiters
pub mod Header
mod Tests
