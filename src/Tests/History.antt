-- ===== src/Tests/History.antt =====
-- Histories of a session.
use adaptive_hire_exam_platf.Common.{◌≡◌, refl, ℕ, some, none, true, [], ◌∷◌, false}
use adaptive_hire_exam_platf.Common.Equality.{includes, nat_eq}
use adaptive_hire_exam_platf.Engine.Types.{objective}
use adaptive_hire_exam_platf.Session.State.{ResponseRow}
use adaptive_hire_exam_platf.Session.World.{World}
use adaptive_hire_exam_platf.Session.World.Runs.{Run}
use adaptive_hire_exam_platf.Session.Assessment.{ModuleCatalogEntry, Assessment, Invitation}
use adaptive_hire_exam_platf.Session.Rebuild.{rehydrate}
use adaptive_hire_exam_platf.Session.Runtime.{start_current_module, current_step}
use adaptive_hire_exam_platf.Session.Start.{start, create_session, check_invitation}
use adaptive_hire_exam_platf.Session.Start.Joining.{wins, start-wins}
use adaptive_hire_exam_platf.Failures.{ok}
use adaptive_hire_exam_platf.Assessments.Window.{effective_window, window_state}
use adaptive_hire_exam_platf.Session.Durable.{Durable}
use adaptive_hire_exam_platf.Session.Durable.Rebuilt.{IsRebuilt, IsDangling, rehydrate-IsRebuilt}
use adaptive_hire_exam_platf.Session.Durable.History.{
  Setting, IsNew, starts, begins, looks, evicted, here, next, left_by, Reach-Durable,
}
use adaptive_hire_exam_platf.Tests.Fixtures.{
  whole, small_world, running_row, late_clock, no_remaining, first_logic,
}

abbrev logic_entry : ModuleCatalogEntry
logic_entry = record {
  slug = "logic";
  name = "Logic";
  description = none;
  scoring_type = objective;
  traits = none;
}

abbrev intake : Assessment
intake = record {
  id = 3;
  organisation_id = 1;
  title = "Graduate intake";
  window = record { opens_at = none; closes_at = none };
  modules =
      record { module_id = 7; entry = logic_entry; question_count = 12; time_limit_seconds = 600 }
      ∷ [];
  pool_restricted = false;
}

abbrev open_invitation : Invitation
open_invitation = record {
  id = 4;
  candidate_id = some 2;
  window = record { opens_at = none; closes_at = none };
  assessment = intake;
}

-- The candidate's first answer.
abbrev first_response : ResponseRow ℕ
first_response = record {
  module_id = 7;
  question_id = 41;
  selected_option = some "b";
  selected_options = none;
  is_correct = some true;
  ability_estimate_after = some 1016;
  question_difficulty_at_serve = some 1000;
  sequence_number = 1;
  time_taken_ms = 1000;
}

-- Redis has lost the session.
abbrev lost_world : World ℕ
lost_world = record small_world { store = none; responses = first_response ∷ [] }

lost-Durable : Durable lost_world
lost-Durable = record { numbered = (refl, tt); unstarted = λ h. cc; stored = tt }

one_module : includes {A = ℕ} 7 [] ≡ false
unfolding includes
one_module = refl

rehydrate-IsRebuilt_example :
    Run
      (IsRebuilt intake running_row lost_world)
      (IsDangling lost_world)
      (rehydrate intake 1500 running_row lost_world)
rehydrate-IsRebuilt_example =
    rehydrate-IsRebuilt intake 1500 running_row lost_world refl lost-Durable (one_module, tt)

abbrev unstarted_world : World ℕ
unstarted_world = record small_world { session_row = none; store = none; clocks = [] }

unstarted_world-IsNew : IsNew unstarted_world
unstarted_world-IsNew = record { no_row = refl; no_state = refl; no_responses = refl }

admitted :
    check_invitation 2 (some open_invitation) unstarted_world.invitation_status 1500
    ≡ ok open_invitation
unfolding check_invitation effective_window window_state
admitted = refl

start-wins_example :
    start no_remaining late_clock first_logic 2
      (some open_invitation)
      9
      1500
      (wins open_invitation 2 8 1400)
      unstarted_world
    ≡ create_session no_remaining late_clock first_logic open_invitation 2 8 1400 unstarted_world
start-wins_example =
    start-wins no_remaining late_clock first_logic (some open_invitation) open_invitation 2 9 8 1500
      1400 unstarted_world admitted refl

abbrev plain : Setting ℕ
plain = record {
  remaining = no_remaining;
  clock = late_clock;
  select = first_logic;
  assessment = intake;
  rebuilt_at = 3000;
}

-- The candidate starts and begins the module, Redis loses the session, the candidate looks again.
abbrev started : World ℕ
started = left_by (
    start no_remaining late_clock first_logic 2 (some open_invitation) 9 1500 (λ v. v)
      unstarted_world)

abbrev begun : World ℕ
begun = left_by (
    start_current_module no_remaining late_clock first_logic (rehydrate intake 3000) 2 2000 started)

abbrev emptied : World ℕ
emptied = record begun { store = none; clocks = [] }

abbrev looked : World ℕ
looked =
    left_by (current_step no_remaining late_clock first_logic (rehydrate intake 3000) 2 emptied)

Reach-Durable_example : Durable looked
Reach-Durable_example = Reach-Durable unstarted_world-IsNew (
    next
      (next
        (next (next here (starts plain 2 (some open_invitation) 9 1500 unstarted_world))
          (begins plain 2 2000 started))
        (evicted begun))
      (looks plain 2 emptied))
