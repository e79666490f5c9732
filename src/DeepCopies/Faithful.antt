-- ===== src/DeepCopies/Faithful.antt =====
-- Each struct of api/v1beta1 is copied as a deep copy promises.
pub mod Options
pub mod Pods
pub mod Forks
pub mod Kinds
pub mod Lists
