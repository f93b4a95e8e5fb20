-- ===== src/Orm.antt =====
-- The boundary to TypeORM: the interface that the services use, and an instance over lists.
mod Interface
pub mod Lists
pub mod Laws
pub use Interface.{Orm}
