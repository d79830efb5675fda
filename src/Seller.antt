-- ===== src/Seller.antt =====
-- What the seller's endpoints answer, and what its middleware reads of a settlement.
pub mod Response
pub mod Delivery
pub mod Audit
