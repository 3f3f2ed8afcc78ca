-- ===== src/Gateway.antt =====
-- gateway_models.py: which models of the AI gateway a picker offers.
pub mod Names
pub mod Metadata
pub mod Claude
pub mod Services
pub mod Catalog
