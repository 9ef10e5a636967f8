-- ===== src/HostTests.antt =====
-- Runs of the platform and output definitions on concrete input, and the theorems about them there.
use ohinfra_plugins.Protocol.Types.{Check, StructuredError, skipped, warning}
use ohinfra_plugins.Protocol.Value.{Value, interface, int, string, field, end_fields}
use ohinfra_plugins.ResultBuilder.{classify_checks, remove_stderr, classify, is_present}
use ohinfra_plugins.ResultBuilder.Classify.{worst, classify-worst}
use ohinfra_plugins.ResultBuilder.Stderr.{
  HasNoStderr, remove_stderr-HasNoStderr, remove_stderr-same,
}
use ohinfra_plugins.Base.{
  false, is_blank, runes, sort_stable, ◌≡◌, refl, Text, codes, true, List, [], ◌∷◌, none, ok, err,
  failure, pos, arith,
}
use ohinfra_plugins.ServerSetup.Profile.{Info, default_config, resolve_profile}
use ohinfra_plugins.Platform.{
  unescape, valid_key, value_of, parse_value, parse_release, detect_release,
}
use ohinfra_plugins.Platform.Quoting.{quote, parse_value-quote}
use ohinfra_plugins.Platform.Support.{profile_of, detect_release-resolve_profile}
use ohinfra_plugins.Execx.{add_variables, new_limited_buffer, write, stable_environment}
use ohinfra_plugins.Execx.Buffer.{IsFilled, write_all, concat, write_all-new_limited_buffer}

parse_value-quote_example : parse_value (quote (codes "a\"b$c")) ≡ ok (codes "a\"b$c")
parse_value-quote_example = parse_value-quote (codes "a\"b$c")

values_read :
    (parse_value (codes "'it'") ≡ ok (codes "it"))
    × (parse_value (codes "a b") ≡ err (failure "invalid unquoted value"))
    × (parse_value (codes "\"a\\") ≡ err (failure "unterminated double quote"))
unfolding parse_value runes
values_read = (refl, refl, refl)

abbrev debian_lines : List Text
debian_lines = codes "# os-release" ∷ codes "ID=debian" ∷ codes "VERSION_ID=\"12\"" ∷ []

abbrev debian : Info
debian = record { id = codes "debian"; version_id = codes "12"; supported = true }

debian-detected : detect_release debian_lines none ≡ ok debian
unfolding detect_release parse_release is_blank valid_key value_of parse_value unescape
debian-detected = refl

detect_release-resolve_profile_example :
    resolve_profile (λ t. t) default_config debian ≡ profile_of (λ t. t) debian
detect_release-resolve_profile_example =
    detect_release-resolve_profile (λ t. t) debian_lines none debian debian-detected

abbrev outputs : List Text
outputs = codes "one" ∷ codes "two" ∷ []

write_all-new_limited_buffer_example :
    IsFilled (write_all outputs (new_limited_buffer (pos 4))) (concat outputs)
write_all-new_limited_buffer_example =
    write_all-new_limited_buffer (pos 4) outputs (omega arith, (omega arith, tt))

-- A write of nothing to a full buffer marks it as truncated, though nothing is lost.
empty_write :
    write_all (codes "four" ∷ [] ∷ []) (new_limited_buffer (pos 4))
    ≡ record { buffer = codes "four"; limit = 4; truncated = true }
unfolding write
empty_write = refl

environment :
    stable_environment
      ((codes "LANG", codes "de") ∷ (codes "b=", codes "x") ∷ (codes "A_1", codes "y") ∷ [])
    ≡ codes "A_1=y"
      ∷ codes "LANG=de"
      ∷ codes "LC_ALL=C"
      ∷ codes "PATH=/usr/sbin:/usr/bin:/sbin:/bin"
      ∷ []
unfolding stable_environment sort_stable add_variables
environment = refl

abbrev details : Value
details = Value.map (
    field (codes "exit") (interface (int (pos 1)))
      (field (codes "Std-Err.tail") (interface (string (codes "boom"))) end_fields))

abbrev clean : Value
clean = Value.map (field (codes "exit") (interface (int (pos 1))) end_fields)

stderr_removed : remove_stderr details ≡ clean
unfolding remove_stderr
stderr_removed = refl

remove_stderr-HasNoStderr_example :
    HasNoStderr (remove_stderr details)
    × (remove_stderr (remove_stderr details) ≡ remove_stderr details)
remove_stderr-HasNoStderr_example = remove_stderr-HasNoStderr details

remove_stderr-same_example : remove_stderr clean ≡ clean
unfolding HasNoStderr
remove_stderr-same_example = remove_stderr-same clean (refl, (tt, tt))

abbrev checks : List Check
checks =
    record { id = codes "a"; status = skipped; summary = []; details = none }
    ∷ record { id = codes "b"; status = warning; summary = []; details = none }
    ∷ []

abbrev no_errors : List StructuredError
no_errors = []

classify-worst_example : classify checks no_errors ≡ worst false (is_present no_errors) checks
classify-worst_example = classify-worst checks no_errors

checks-warn : classify checks [] ≡ warning
unfolding classify classify_checks
checks-warn = refl
