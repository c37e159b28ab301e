-- ===== src/ReadPreference/PrimaryPreferred.antt =====
-- Choosing with the read preference primaryPreferred.
