-- ===== src/AgePolicy/Partition.antt =====
-- The readers that a person is sent to and those that the age keeps closed.
