-- ===== src/Tests/Fixtures.antt =====
-- The data of the tests.
use adaptive_hire_exam_platf.Common.{
  ℕ, ◌+◌, ◌-◌, ◌*◌, ◌/◌, none, some, [], ◌∷◌, true, false, ltb, Option,
}
use adaptive_hire_exam_platf.Engine.Numbers.{Num}
use adaptive_hire_exam_platf.Engine.Types.{
  ModuleRunState, ModuleRunStatus, ModuleRunConfig, objective, ranking, ProbePair, outcome,
}
use adaptive_hire_exam_platf.Engine.Questions.{
  Question, McqQuestionDetails, PersonalityQuestionDetails,
}
use adaptive_hire_exam_platf.Session.State.{
  SessionState, SessionRow, RunStatus, SessionStatus, InvitationStatus,
}
use adaptive_hire_exam_platf.Session.World.{World}
use adaptive_hire_exam_platf.Session.Advance.{Clock, Remaining}

instance abbrev pub whole : Num ℕ
whole = record {
  of_ℕ = λ n. n;
  plus = λ a b. a + b;
  minus = λ a b. a - b;
  times = λ a b. a * b;
  divide = λ a b. a / b;
  power_of_ten = λ n. n + 1;
  sqrt = λ n. n;
  ln10 = 2;
  round = λ n. n;
  infinity = 1000000;
  is_finite = λ n. true;
  lt = ltb;
}

abbrev pub logic_config : ModuleRunConfig
logic_config = record {
  module_id = 7;
  organisation_id = 1;
  assessment_id = 3;
  pool_restricted = false;
  slug = "logic";
  name = "Logic";
  description = none;
  scoring_type = objective;
  traits = [];
  question_count = 12;
  time_limit_seconds = 600;
}

-- A running module with one open pair, whose twin is due after the tenth answer.
abbrev pub logic_pair : ProbePair ℕ
logic_pair = record {
  group = "syllogism";
  first_question_id = 40;
  first_sequence = 1;
  first = outcome true;
  asked_at_answered = 1;
  second_question_id = none;
  second_sequence = none;
  second = none;
  agreement = none;
  flipped = none;
  divergent_traits = [];
}

abbrev pub logic_module : ModuleRunState ℕ
logic_module = record {
  config = logic_config;
  status = ModuleRunStatus.in_progress;
  started_at = some 1000;
  deadline_at = some 601000;
  completed_at = none;
  stop_reason = none;
  answered = 9;
  correct = 5;
  seen_question_ids = 40 ∷ [];
  ability = 1000;
  information = 0;
  recent_abilities = 1000 ∷ [];
  trait_tallies = [];
  pattern_counts = [];
  probes = logic_pair ∷ [];
  served_probe_groups = "syllogism" ∷ [];
}

abbrev pub logic_details : McqQuestionDetails ℕ
logic_details = record {
  options = record { key = "a"; text = "All of them" } ∷ record { key = "b"; text = "None" } ∷ [];
  correct_option = "b";
  difficulty_score = 1100;
  times_used = 4;
  times_correct = 1;
}

abbrev pub logic_question : Question ℕ
logic_question = record {
  id = 41;
  module_id = 7;
  question_text = "Which follow?";
  probe_group = some "syllogism";
  mcq_details = some logic_details;
  personality_details = none;
}

abbrev pub ranking_details : PersonalityQuestionDetails ℕ
ranking_details = record {
  options =
      record { key = "x"; text = "Plan"; trait_weights = ("order", 2) ∷ [] }
      ∷ record { key = "y"; text = "Improvise"; trait_weights = ("order", 0) ∷ [] }
      ∷ [];
  pattern = some ranking;
  times_used = 0;
}

abbrev pub running_session : SessionState ℕ
running_session = record {
  session_id = 1;
  candidate_id = 2;
  invitation_id = 4;
  assessment_id = 3;
  assessment_title = "Graduate intake";
  started_at = 1000;
  expires_at = 721000;
  status = RunStatus.in_progress;
  modules = logic_module ∷ [];
  current_module_index = 0;
  served = some (record { question_id = 41; module_id = 7; served_at = 5000 });
  answered_total = 9;
}

abbrev pub running_row : SessionRow
running_row = record {
  id = 1;
  invitation_id = 4;
  assessment_id = 3;
  candidate_id = 2;
  status = SessionStatus.in_progress;
  started_at = 1000;
  expires_at = 721000;
  submitted_at = none;
}

abbrev pub small_world : World ℕ
small_world = record {
  store = some running_session;
  clocks = (7, 600) ∷ [];
  session_row = some running_row;
  invitation_status = InvitationStatus.in_progress;
  responses = [];
  module_results = [];
  bank = logic_question ∷ [];
  queue_up = true;
  auto_submit = some 720000;
  report_queued = false;
}

abbrev pub late_clock : Clock
late_clock = record { pass = λ i. 700000 + i; closing = 700100; showing = 700200 }

abbrev pub no_remaining : Remaining
no_remaining module_id = none

abbrev pub first_logic : ModuleRunState ℕ → Option (Question ℕ)
first_logic m = some logic_question
