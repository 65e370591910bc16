-- ===== src/Packfile/Writer.antt =====
-- crates/git/packfile/src/writer.rs: the pack header. The entry headers are written by `gix_pack`.
use enroute.Prelude.{ℕ, List, ◌++◌, to_be_bytes}
use enroute.Packfile.Reader.{pack_magic}

unfoldable pub write_pack_header : ℕ → List ℕ → List ℕ
unfolding to_be_bytes
write_pack_header object_count out =
    out ++ (pack_magic ++ (to_be_bytes 4 2 ++ to_be_bytes 4 object_count))
