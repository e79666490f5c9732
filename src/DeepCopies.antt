-- ===== src/DeepCopies.antt =====
-- api/v1beta1/zz_generated.deepcopy.go: the deep copies of the kinds of this repository and of the
-- structs within them. `DeepCopyInto` makes a struct from a struct: `*out = *in`, and then the fields
-- that are overwritten. An address is taken once what will lie there is known, where Go takes it
-- before; addresses differ in no other way.
pub mod Structs
pub mod Memory
pub mod Slots
pub mod Copying
pub mod Specs
pub mod Kinds
pub mod Windows
pub mod Content
pub mod Laws
pub mod Blocks
pub mod Faithful
pub mod Separate
