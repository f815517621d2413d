-- ===== src/Delta/Writer/Rounds.antt =====
-- The loop of `FileWriter::copy_from_base` of src/delta.rs ends.
