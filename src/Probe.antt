-- ===== src/Probe.antt =====
-- internal/probe/probe.go: reading files below a root, and running programs with limited output.
pub mod Reading
pub mod Commands
use ohinfra_plugins.Base.{
  ℕ, ◌≡◌, refl, ◌+◌, ◌^◌, Text, codes, eq_text, Bool, true, false, not, ◌&&◌, ◌||◌, List, [], ◌∷◌,
  all, any, length, take, ltb, leb, ◌==◌, Option, none, some, Fallible, ok, err, Error, failure,
  message, not_exist, if◌then◌else◌, ℤ, pos, negsuc, wrapped, map, String, require,
}
use ohinfra_plugins.Scan.{split_at_byte, trim_last}
use ohinfra_plugins.Paths.{starts_with, split_path, clean_relative_path, is_root, join_path}
use ohinfra_plugins.Disk.{
  Kind, regular, directory, symlink, Entry, Entries, Disk, Io, ◌>>=◌, ◌>>◌, continue, lift, look,
  lstat, entry_at,
}

abbrev pub invalid_limit : Error
invalid_limit = failure "invalid probe limit"

abbrev invalid_root : Error
invalid_root = failure "probe root must be an absolute clean path"

-- An error that wraps one of the package's is the latter's, with the text that is added to it.
abbrev symlink_text : String
symlink_text = "probe path contains a symbolic link"

abbrev pub symlink_error : Text → Error
symlink_error detail = message symlink_text (detail ∷ [])

abbrev pub not_regular : Text → Error
not_regular relative = message "probe path is not a regular file" (relative ∷ [])

abbrev pub too_large : Text → Error
too_large relative = message "probe input exceeds limit" (relative ∷ [])

-- `errors.Is(err, os.ErrNotExist)`
unfoldable pub is_not_exist : Error → Bool
is_not_exist not_exist = true
is_not_exist (wrapped text e) = is_not_exist e
is_not_exist _ = false

-- `errors.Is(err, probe.ErrSymlink)`
unfoldable pub is_symlink_error : Error → Bool
is_symlink_error (message text details) = eq_text (codes text) (codes symlink_text)
is_symlink_error (wrapped text e) = is_symlink_error e
is_symlink_error _ = false

abbrev pub is_symlink : Entry → Bool
is_symlink e = elim e.kind [ symlink ↦ true | _ ↦ false ]

abbrev pub is_directory : Entry → Bool
is_directory e = elim e.kind [ directory ↦ true | _ ↦ false ]

abbrev pub is_regular : Entry → Bool
is_regular e = elim e.kind [ regular ↦ true | _ ↦ false ]

abbrev pub guard : Bool → Error → Io (Unit {0})
guard true e = lift (ok tt)
guard false e = lift (err e)

-- The loop over the components, with the path and the entry reached.
unfoldable pub walk : Text → Text → Entry → List Text → Io (Text × Entry)
walk relative current info [] = lift (ok (current, info))
walk relative current info (c ∷ rest) = do
  next ← lstat (join_path current c)
  guard (not (is_symlink next)) (symlink_error relative)
  walk relative (join_path current c) next rest

-- `confinedPath`
unfoldable pub confined_path : Text → Text → Io (Text × Entry)
confined_path root relative = do
  path ← lift (clean_relative_path relative)
  guard (is_root root) invalid_root
  info ← lstat root
  guard (not (is_symlink info)) (symlink_error (codes "root"))
  guard (is_directory info) (message "invalid probe path" (codes "root is not a directory" ∷ []))
  walk relative root info (split_path path)

abbrev pub content_at : Text → Entries → Fallible Text
content_at path entries = elim (entries path) [ none ↦ err not_exist | some e ↦ ok e.content ]

-- `limit+1` as an int64, as a number of bytes: `io.LimitReader` gives none for one that has wrapped around.
abbrev pub read_bound : ℕ → ℕ
read_bound limit = if ltb (limit + 1) (2 ^ 63) then limit + 1 else 0

-- `Read`, with the limit as a number: what is not above 0 has been refused.
unfoldable pub read_within : Text → Text → ℕ → Io Text
read_within root relative limit = do
  (path, info) ← confined_path root relative
  guard (is_regular info) (not_regular relative)
  guard (leb (length info.content) limit) (too_large relative)
  opened ← lstat path
  guard (is_regular opened) (not_regular relative)
  content ← look (content_at path)
  guard (leb (length (take (read_bound limit) content)) limit) (too_large relative)
  lift (ok (take (read_bound limit) content))

-- `Read`
unfoldable pub read : Text → Text → ℤ → Io Text
read root relative (pos limit) =
    if limit == 0 then lift (err invalid_limit) else read_within root relative limit
read root relative (negsuc n) = lift (err invalid_limit)

-- `Lines`
unfoldable pub text_lines : Text → List Text
text_lines [] = []
text_lines (c ∷ s) = map (trim_last b'\r') (split_at_byte b'\n' (trim_last b'\n' (c ∷ s)))

unfoldable pub lines : Text → Text → ℤ → Io (List Text)
lines root relative limit = do content ← read root relative limit; lift (ok (text_lines content))

abbrev pub or_missing : Fallible (Text × Entry) × Disk → Fallible Bool × Disk
or_missing (ok end, d) = (ok true, d)
or_missing (err e, d) = if is_not_exist e then (ok false, d) else (err e, d)

-- `Exists`
unfoldable pub exists : Text → Text → Io Bool
exists root relative d = or_missing (confined_path root relative d)
