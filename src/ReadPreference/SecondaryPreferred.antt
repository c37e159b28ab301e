-- ===== src/ReadPreference/SecondaryPreferred.antt =====
-- Choosing with the read preference secondaryPreferred.
