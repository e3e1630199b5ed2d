-- ===== src/Sealed.antt =====
-- sealed.go: the document that a caller persists, the authenticated data that each seal in it is
-- bound to, the lookups and listings of its entries, and its validation.
pub mod Document
pub mod Aad
pub mod Find
pub mod Listing
pub mod Parse
