-- ===== src/Paths.antt =====
-- Slash-separated paths, as package filepath handles them on Unix, and what
-- internal/probe/probe.go and internal/serversetup/check.go make of them.
pub mod Confined
use ohinfra_plugins.Base.{
  ℕ, ◌≡◌, refl, Text, codes, eq_text, cut_prefix, join, Bool, true, false, not, ◌&&◌, ◌||◌, List,
  [], ◌∷◌, ◌++◌, reverse, any, Option, none, some, ◌==◌, if◌then◌else◌, Fallible, Checked, ok, err,
  Error, failure, require, ◌>>=◌, ◌>>◌,
}

-- The parts of a text between the bytes that `cut` holds for; the second parameter is the part that
-- is being read.
unfoldable pub split_by : (ℕ → Bool) → Text → Text → List Text
split_by cut part [] = part ∷ []
split_by cut part (c ∷ s) =
    let next = split_by cut [] s in
    let longer = split_by cut (part ++ c ∷ []) s in if cut c then part ∷ next else longer

-- `strings.Split(s, "/")`
abbrev pub split_path : Text → List Text
split_path s = split_by (λ c. c == b'/') [] s

abbrev pub dot : Text
dot = b'.' ∷ []

abbrev pub dots : Text
dots = b'.' ∷ b'.' ∷ []

-- `..`, onto the components before it, the last first.
abbrev pub go_up : Bool → List Text → List Text
go_up true [] = []
go_up false [] = dots ∷ []
go_up rooted (top ∷ rest) = if eq_text top dots then dots ∷ top ∷ rest else rest

abbrev pub push_component : Bool → List Text → Text → List Text
push_component rooted stack [] = stack
push_component rooted stack (c ∷ s) =
    if eq_text (c ∷ s) dot
    then stack
    else if eq_text (c ∷ s) dots
    then go_up rooted stack
    else (c ∷ s) ∷ stack

unfoldable pub push_all : Bool → List Text → List Text → List Text
push_all rooted stack [] = stack
push_all rooted stack (c ∷ rest) = push_all rooted (push_component rooted stack c) rest

abbrev pub slash : Text
slash = b'/' ∷ []

abbrev pub is_abs : Text → Bool
is_abs [] = false
is_abs (c ∷ s) = c == b'/'

abbrev or_dot : Text → Text
or_dot [] = dot
or_dot (c ∷ s) = c ∷ s

-- The components of a path without `.`, with as few `..` as can be.
abbrev pub components : Text → List Text
components path = reverse (push_all (is_abs path) [] (split_path path))

-- `filepath.Clean`
unfoldable pub clean : Text → Text
unfolding push_all split_by
clean path =
    if is_abs path
    then b'/' ∷ join (components path) slash
    else or_dot (join (components path) slash)

-- `filepath.Join` of two texts that are not empty.
abbrev pub join_path : Text → Text → Text
join_path a b = clean (a ++ (b'/' ∷ b))

-- The text up to and with its last slash; the second parameter is the part behind the last slash that
-- has been read.
abbrev pub up_to_slash : Text → Text → Text
up_to_slash part [] = []
up_to_slash part (c ∷ s) =
    if c == b'/' then part ++ c ∷ up_to_slash [] s else up_to_slash (part ++ c ∷ []) s

-- `filepath.Dir`
unfoldable pub dir : Text → Text
dir path = clean (up_to_slash [] path)

abbrev pub starts_with : Text → Text → Bool
starts_with s prefix = elim (cut_prefix s prefix) [ none ↦ false | some rest ↦ true ]

-- The path, cleaned, is `.`, or leads up.
abbrev pub leads_out : Text → Bool
leads_out c = eq_text c dot || (eq_text c dots || starts_with c (b'.' ∷ b'.' ∷ b'/' ∷ []))

abbrev is_any_slash : ℕ → Bool
is_any_slash c = c == b'/' || c == b'\\'

abbrev invalid_path : Error
invalid_path = failure "invalid probe path"

-- `cleanRelativePath`
unfoldable pub clean_relative_path : Text → Fallible Text
unfolding split_by
clean_relative_path relative = do
  require (not (eq_text relative []) && not (is_abs relative)) invalid_path
  require (not (any (eq_text dots) (split_by is_any_slash [] relative))) invalid_path
  require (not (leads_out (clean relative))) invalid_path
  ok (clean relative)

-- A root is an absolute clean path.
abbrev pub is_root : Text → Bool
is_root root = is_abs root && eq_text (clean root) root

abbrev pub trim_slash : Text → Text
trim_slash [] = []
trim_slash (c ∷ s) = if c == b'/' then s else c ∷ s

-- `rootedPath`
unfoldable pub rooted_path : Text → Text → Fallible Text
rooted_path root absolute = do
  require (is_root root && (is_abs absolute && not (any (λ c. c == b'\\') absolute)))
      (failure "invalid compiled path")
  require (not (leads_out (clean (trim_slash absolute)))) (failure "compiled path escapes root")
  ok (join_path root (clean (trim_slash absolute)))
