-- ===== src/Classifier.antt =====
-- The classification engine: control-plane/app/services/classifier.py, over the profile of
-- control-plane/app/services/classification_profile.py.
pub mod Profile
pub mod Python
pub mod Item
pub mod Names
pub mod Targets
pub mod Documents
pub mod Engine
pub mod Outcome
pub mod Counts
pub mod Safety
pub mod Order
pub mod Matching
pub mod Samples
pub mod Tests
pub mod Examples
