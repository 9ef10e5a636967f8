-- ===== src/CommandTests.antt =====
-- The theorems on the programs that changes run, used on machines that answer always the same or have
-- groups only.
use ohinfra_plugins.Base.{
  err, Fallible, some, Option, Error, eq_text, eq_text_refl, ℤ, ◌*◌, ◌^◌, if◌then◌else◌, arith, ap,
  sym, ◌∙◌, fields, ◌≡◌, refl, Text, codes, true, List, [], ◌∷◌, ◌++◌, none, ok, pos, all,
}
use ohinfra_plugins.Paths.{split_by}
use ohinfra_plugins.Probe.Commands.{
  Spec, Output, prepare_run, is_program_name, command_output_limit,
}
use ohinfra_plugins.ServerSetup.Commands.Undoable.{
  CommandLine, runs, groupadd, groupdel, TakesBack, AreUndoable,
}
use ohinfra_plugins.ServerSetup.Commands.{
  run_output, checked_exit, prepared, Machine, compiled_name, cached_upgrades, found_upgrades,
}
use ohinfra_plugins.ServerSetup.Commands.Upgrades.{AreSimulated, cached_upgrades-AreSimulated}

abbrev answering : Output → Machine (Unit {0})
answering output = record { context = λ w. none; run_program = λ spec w. (ok output, w) }

abbrev simulated : Output
simulated = record {
  exit_code = pos 0;
  stdout = codes "Inst jq [1.6]" ++ 10 ∷ codes "Conf jq" ++ 10 ∷ [];
  stderr = [];
}

abbrev packages : List Text
packages = codes "curl" ∷ codes "jq" ∷ []

cached_upgrades-AreSimulated_example :
    (all compiled_name packages ≡ true)
    × AreSimulated (answering simulated) packages tt (codes "jq" ∷ [])
unfolding cached_upgrades compiled_name prepare_run is_program_name command_output_limit
    found_upgrades split_by fields
cached_upgrades-AreSimulated_example =
    cached_upgrades-AreSimulated (answering simulated) packages (codes "jq" ∷ []) tt tt refl

-- A machine whose world is a list of groups, the last one that was added first. It has groupadd and
-- groupdel; every other program ends with 1.
abbrev pub Groups : Type 0
Groups = List Text

abbrev pushed : List Text → Groups → Option Groups
pushed (system ∷ dashes ∷ name ∷ []) w = some (name ∷ w)
pushed _ w = none

abbrev popped : List Text → Groups → Option Groups
popped (dashes ∷ name ∷ []) (g ∷ w) = if eq_text g name then some w else none
popped _ w = none

abbrev step : Spec → Groups → Option Groups
step spec w =
    if eq_text spec.program (codes "groupadd")
    then pushed spec.arguments w
    else if eq_text spec.program (codes "groupdel")
    then popped spec.arguments w
    else none

abbrev ended : ℤ → Output
ended code = record { exit_code = code; stdout = []; stderr = [] }

abbrev respond : Option Groups → Groups → Fallible Output × Groups
respond (some now) w = (ok (ended (pos 0)), now)
respond none w = (ok (ended (pos 1)), w)

abbrev pub groups_machine : Machine Groups
groups_machine = record { context = λ w. none; run_program = λ spec w. respond (step spec w) w }

abbrev pub SameGroups : Groups → Groups → Type 0
SameGroups v w = v ≡ w

respond-kept :
    (program : Text) (o : Option Groups) (w after : Groups) (e : Error)
    → checked_exit groups_machine program (respond o w) ≡ (err e, after)
    → after ≡ w
respond-kept program (some now) w after e h = absurd (ground (arith, ap (λ r. r.0) h))
respond-kept program none w after e h = sym (ap (λ r. r.1) h)

failed-kept :
    (line : CommandLine) (w after : Groups) (e : Error)
    → runs SameGroups groups_machine line w ≡ (err e, after)
    → after ≡ w
unfolding run_output
failed-kept line w after e h =
    by_spec
      (prepare_run none (record {
        program = line.0;
        arguments = line.1;
        stdout_limit = pos (64 * 2 ^ 10);
        stderr_limit = pos (64 * 2 ^ 10);
      }))
      h
  where
    by_spec :
        (s : Fallible Spec)
        → checked_exit groups_machine line.0 (prepared groups_machine s w) ≡ (err e, after)
        → after ≡ w
    by_spec (ok spec) k = respond-kept line.0 (step spec w) w after e k
    by_spec (err x) k = sym (ap (λ r. r.1) k)

abbrev replied : Fallible Output → Groups → Fallible Output × Groups
replied r w = (r, w)

fails :
    {B : Type 0} {x : Error} {w v : Groups} {o : Output} → replied (err x) w ≡ replied (ok o) v → B
fails h = absurd (ground (arith, ap (λ r. r.0) h))

group-back :
    (name : Text) (w after : Groups) (o : Output)
    → runs SameGroups groups_machine (groupadd name) w ≡ (ok o, after)
    → TakesBack SameGroups groups_machine (groupdel name) after w
unfolding run_output prepare_run is_program_name command_output_limit
group-back name w after o h v o2 v2 same ran =
    let added : v ≡ name ∷ w = same ∙ sym (ap (λ r. r.1) h) in
    let deleted = rw (eq_text_refl name) at (rw added at ran) in sym (ap (λ r. r.1) deleted)

pub groups-AreUndoable : AreUndoable SameGroups groups_machine
unfolding run_output prepare_run is_program_name command_output_limit
groups-AreUndoable = record {
  later_refl = λ w. refl;
  later_trans = λ u v w e f. e ∙ f;
  failed = failed-kept;
  installed = λ name w after o h. fails h;
  version_asked = λ name w after o h. fails h;
  upgraded = λ name w between after shown o h k. fails h;
  group_added = group-back;
  user_added = λ spec w after o h. fails h;
  value_asked = λ key w after o h. fails h;
  value_set = λ key value w between after shown o h k. fails h;
  state_asked = λ unit w after o h. fails h;
  enabled_again = λ unit w between after shown o h e k. fails h;
  enabled = λ unit w between after shown o h k. fails h;
}
