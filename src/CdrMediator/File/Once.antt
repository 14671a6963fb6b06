-- ===== src/CdrMediator/File/Once.antt =====
-- The files of a directory, read again.
use rate_engine.Base.{
  ◌>>=◌, ℕ, ◌+◌, ◌-◌, ◌<◌, ◌≡◌, refl, ◌∙◌, ap, true, false, List, [], ◌++◌, some, arith, Text,
  is_set, All, Gives,
}
use rate_engine.CdrMediator.Store.{Value}
use rate_engine.CdrMediator.File.{
  Storage, Profile, Rows, readbuf_len, fgets_all, resolved, cdr_file_get_from_tbl, cdr_file_parser,
  read_file,
}
use rate_engine.CdrMediator.File.Counted.{FitsLine, cdr_file_parser-keeps}

-- The insert of a file, which succeeds, is one row more of it; the insert of a record and a rename
-- change no row of `cdr_files`.
pub record IsTable {W : Type 0} (storage : Storage W) : Type 0 where
  pub rows_added :
      (w : W) (file : Text) (server : ℕ)
      → storage.file_rows (storage.add_file w file server) file server
        ≡ storage.file_rows w file server + 1
  pub rows_inserted :
      (w : W) (statement : List (Text × Value)) (file : Text) (server : ℕ)
      → storage.file_rows (storage.insert w statement).0 file server
        ≡ storage.file_rows w file server
  pub rows_moved :
      (w : W) (src dst file : Text) (server : ℕ)
      → storage.file_rows (storage.move w src dst) file server ≡ storage.file_rows w file server

module _ {W : Type 0} (storage : Storage W) (profile : Profile) where
  read_file-known :
      (filename : Text) (w : W) (server : ℕ)
      → is_set filename ≡ true
      → cdr_file_get_from_tbl storage profile w (profile.src_dir ++ filename) server ≡ true
      → read_file storage profile filename (w, server)
        ≡ some (storage.move w (profile.src_dir ++ filename) (profile.dst_dir ++ filename), server)
  unfolding read_file
  read_file-known filename w server s k = rw (s, k) refl

  read_file-new :
      (filename : Text) (w w2 : W) (server : ℕ) (rows : Rows) (ret : ℕ)
      → is_set filename ≡ true
      → cdr_file_get_from_tbl storage profile w (profile.src_dir ++ filename) server ≡ false
      → cdr_file_parser storage profile server (profile.src_dir ++ filename) w
        ≡ some (w2, rows, ret)
      → ret ≡ 0
      → read_file storage profile filename (w, server)
        ≡ some (
          storage.move w2 (profile.src_dir ++ filename) (profile.dst_dir ++ filename),
          resolved storage profile server,
        )
  unfolding read_file ◌>>=◌
  read_file-new filename w w2 server rows ret s k e z = rw (s, k, e, z) refl

  -- A file of the directory that has no row for the server of the profile, which is resolved, has
  -- one row when it was read, so that the reader, where it meets the file again because it could not
  -- be moved, tries to move it and reads nothing.
  pub read_file-once :
      (cdr_server_id : ℕ) (filename bytes : Text) (w : W)
      → IsTable storage
      → is_set filename ≡ true
      → 0 < cdr_server_id
      → storage.file_rows w (profile.src_dir ++ filename) cdr_server_id ≡ 0
      → storage.open_file w (profile.src_dir ++ filename) ≡ some bytes
      → All (FitsLine profile.col_sep) (fgets_all (readbuf_len - 1) [] bytes)
      → Gives
          (λ (w1, server).
            read_file storage profile filename (w1, server)
            ≡ some (
              storage.move w1 (profile.src_dir ++ filename) (profile.dst_dir ++ filename),
              server,
            ))
          (read_file storage profile filename (w, cdr_server_id))
  unfolding cdr_file_get_from_tbl
  read_file-once cdr_server_id filename bytes w table s pos u o f =
      let src = profile.src_dir ++ filename in
      let dst = profile.dst_dir ++ filename in
      let server : resolved storage profile cdr_server_id ≡ cdr_server_id = ground (arith, pos) in
      let ((w2, rows, ret), e, (zero, counts, (w1, p, added))) =
        cdr_file_parser-keeps storage profile (λ v. storage.file_rows v src cdr_server_id ≡ 0)
          cdr_server_id src bytes w
          (λ v st i none_yet. table.rows_inserted v st src cdr_server_id ∙ none_yet) o f u in
      let one_row : storage.file_rows (storage.move w2 src dst) src cdr_server_id ≡ 1 =
        table.rows_moved w2 src dst src cdr_server_id
        ∙ ap (λ v. storage.file_rows v src cdr_server_id)
            (added ∙ ap (storage.add_file w1 src) server)
        ∙ table.rows_added w1 src cdr_server_id
        ∙ ap (λ n. n + 1) p in
      let found : cdr_file_get_from_tbl storage profile (storage.move w2 src dst) src cdr_server_id
          ≡ true =
        rw one_row refl in
      (
        (storage.move w2 src dst, resolved storage profile cdr_server_id),
        read_file-new filename w w2 cdr_server_id rows ret s (ground (arith, u)) e zero,
        read_file-known filename (storage.move w2 src dst) _ s (rw server found),
      )
