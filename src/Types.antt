-- ===== src/Types.antt =====
-- internal/types: the type system of the checker.
pub mod Kinds
pub mod Equal
pub mod Subtype
pub mod Equivalence
pub mod Reflexive
pub mod Assign
pub mod Contra
pub mod Inverse
pub mod Transitive
pub mod Subst
pub mod Vars
pub mod Acyclic
pub mod Ends
pub mod Opened
pub mod Unify
pub mod Grow
pub mod Loops
pub mod Poly
pub mod Free
pub mod Fresh
pub mod Effects
pub mod EffectSets
pub mod EffectNames
mod Tests
mod UnifyTests
mod EffectTests
