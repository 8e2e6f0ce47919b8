-- ===== src/BuildChain.antt =====
-- services/build_chain.py
pub mod Recipe
pub mod Efficiency
pub mod Walk
pub mod Induction
pub mod Conservation
pub mod Shape
pub mod Raw
pub mod Depth
pub mod Order
pub mod Aggregate
pub mod Resolve
pub mod Tests
