-- ===== src/Api.antt =====
-- The resources that the program reads and writes: those of api/v1beta1, and of the types of
-- Kubernetes, Istio, Ambassador and deployment-duplicator the fields that the program touches.
mod Meta
mod Forks
mod Manager
mod Config
mod Core
mod Routing
pub use Meta.*
pub use Forks.*
pub use Manager.*
pub use Config.*
pub use Core.*
pub use Routing.*
