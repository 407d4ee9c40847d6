-- ===== src/Tests/Reports.antt =====
-- Runs of the report, of the status bar and of the public link. The numbers are thousandths.
use adaptive_hire_exam_platf.Common.{
  map, ℕ, ◌+◌, ◌-◌, ◌*◌, ◌/◌, ◌≤◌, ◌≡◌, ◌↔◌, refl, Option, none, some, [], ◌∷◌, ◌++◌, List, true,
  ltb, length, All, arith,
}
use adaptive_hire_exam_platf.Common.Equality.{string_eq}
use adaptive_hire_exam_platf.Engine.Numbers.{Num, NumLaws}
use adaptive_hire_exam_platf.Engine.Types.{objective, trait}
use adaptive_hire_exam_platf.Session.State.{InvitationStatus}
use adaptive_hire_exam_platf.Assessments.Window.{Window, open_now, effective_window, window_state}
use adaptive_hire_exam_platf.Assessments.PublicLink.{PublicLinkConfig, link_open, public_link_state}
use adaptive_hire_exam_platf.Assessments.PublicLink.Admission.{
  IsOpen, IsReached, IsUnpassed, public_link_state-IsOpen_iff, public_link_state-window_state,
}
use adaptive_hire_exam_platf.Invitations.Attempt.{StageInput}
use adaptive_hire_exam_platf.Reports.Profiles.{
  ReportedTrait, BehavioralAssessment, by_key, build_behavioral_profiles,
}
use adaptive_hire_exam_platf.Reports.Profiles.Evidence.{
  IsSupported, build_behavioral_profiles-IsSupported,
}
use adaptive_hire_exam_platf.Reports.Profiles.Repeated.{
  IsRepeated, build_behavioral_profiles-append,
}
use adaptive_hire_exam_platf.Reports.Builder.{
  ModuleSummary, recommended, borderline, traits_of, banded, recommend, collect_strengths,
  collect_weaknesses,
}
use adaptive_hire_exam_platf.Reports.Builder.Recommending.{rank, recommend_mono}
use adaptive_hire_exam_platf.Reports.Builder.Findings.{
  IsStrength, IsWeakness, collect_findings-Earned,
}
use adaptive_hire_exam_platf.Reports.Ranking.{AttemptListItem, scored_of, rank_by_score}
use adaptive_hire_exam_platf.Reports.Ranking.Cohort.{
  DistinctSessions, standing, rank_by_score-standing,
}

instance abbrev pub thousandths : Num ℕ
thousandths = record {
  of_ℕ = λ n. n * 1000;
  plus = λ a b. a + b;
  minus = λ a b. a - b;
  times = λ a b. a * b / 1000;
  divide = λ a b. a * 1000 / b;
  power_of_ten = λ n. n;
  sqrt = λ n. n;
  ln10 = 2303;
  round = λ n. (n + 500) / 1000 * 1000;
  infinity = 1000000000;
  is_finite = λ n. true;
  lt = ltb;
}

thousandths-NumLaws : NumLaws ℕ
thousandths-NumLaws = record {
  lt_asymm = λ a b h. ground arith;
  le_trans = λ a b c h k. ground arith;
}

abbrev teamwork : ℕ → ℕ → ReportedTrait ℕ
teamwork score confidence = record {
  key = "teamwork";
  label = "Teamwork";
  score = score;
  confidence = confidence;
  consistency = none;
}

abbrev logic_summary : ModuleSummary ℕ
logic_summary = record {
  module_id = 7;
  name = "Logic";
  scoring_type = objective;
  score = some 71000;
  questions_answered = 9;
  question_count = 12;
  traits = [];
}

abbrev workplace_summary : ModuleSummary ℕ
workplace_summary = record {
  module_id = 8;
  name = "Workplace";
  scoring_type = trait;
  score = none;
  questions_answered = 12;
  question_count = 12;
  traits = teamwork 82000 900 ∷ [];
}

abbrev both_modules : List (ModuleSummary ℕ)
both_modules = logic_summary ∷ workplace_summary ∷ []

abbrev assessed : BehavioralAssessment ℕ
assessed = build_behavioral_profiles (traits_of both_modules)

thin-borderline : recommend {R = ℕ} (some 60000) 500 ≡ some borderline
unfolding recommend banded
thin-borderline = refl

full-recommended : recommend {R = ℕ} (some 61000) 700 ≡ some recommended
unfolding recommend banded
full-recommended = refl

recommend_mono_example : rank borderline ≤ rank recommended
recommend_mono_example =
    recommend_mono thousandths-NumLaws 60000 61000 500 700 borderline recommended refl refl
      thin-borderline full-recommended

collect_findings-Earned_example :
    All (IsStrength assessed.profiles both_modules) (collect_strengths both_modules assessed)
    × All (IsWeakness assessed.profiles both_modules) (collect_weaknesses both_modules assessed)
collect_findings-Earned_example = collect_findings-Earned both_modules assessed

build_behavioral_profiles-IsSupported_example :
    All
      (IsSupported (teamwork 82000 900 ∷ []))
      (build_behavioral_profiles (teamwork 82000 900 ∷ [])).profiles
build_behavioral_profiles-IsSupported_example =
    build_behavioral_profiles-IsSupported (teamwork 82000 900 ∷ [])

teamwork-IsRepeated : IsRepeated (teamwork 82000 900 ∷ []) (teamwork 50000 0 ∷ [])
unfolding by_key
teamwork-IsRepeated key h = ground arith

-- The second module has not measured the trait, and the first one's measurement is gone.
build_behavioral_profiles-append_example :
    build_behavioral_profiles ((teamwork 82000 900 ∷ []) ++ (teamwork 50000 0 ∷ []))
    ≡ build_behavioral_profiles (teamwork 50000 0 ∷ [])
build_behavioral_profiles-append_example =
    build_behavioral_profiles-append (teamwork 82000 900 ∷ []) (teamwork 50000 0 ∷ [])
      teamwork-IsRepeated

abbrev campus_link : PublicLinkConfig
campus_link = record {
  token_hash = some "9f86d0";
  enabled = true;
  expires_at = none;
  max_attempts = some 40;
  opens_at = some 1000;
  closes_at = some 9000;
}

campus-open : public_link_state campus_link 39 5000 ≡ link_open
unfolding public_link_state
campus-open = refl

public_link_state-IsOpen_iff_example :
    (public_link_state campus_link 39 5000 ≡ link_open) ↔ IsOpen campus_link 39 5000
public_link_state-IsOpen_iff_example = public_link_state-IsOpen_iff campus_link 39 5000

-- An invitation that may begin only later than the link lets in.
abbrev later_round : Window
later_round = record { opens_at = some 9000; closes_at = none }

public_link_state-window_state_example :
    (window_state
        (effective_window
          (record { opens_at = campus_link.opens_at; closes_at = campus_link.closes_at })
          later_round)
        5000
      ≡ open_now)
    ↔ (IsReached 5000 later_round.opens_at × IsUnpassed 5000 later_round.closes_at)
public_link_state-window_state_example =
    public_link_state-window_state campus_link 39 5000 later_round campus-open

abbrev begun_attempt : StageInput
begun_attempt = record {
  invitation_status = InvitationStatus.in_progress;
  invited_at = 1000;
  started_at = some 2000;
  submitted_at = none;
  review_ready_at = none;
}

abbrev listed : ℕ → Option ℕ → AttemptListItem ℕ
listed id score = record { session_id = id; overall_score = score; rank = none; cohort_size = 0 }

abbrev cohort : List (AttemptListItem ℕ)
cohort =
    listed 1 (some 70000)
    ∷ listed 2 (some 81000)
    ∷ listed 3 none
    ∷ listed 4 (some 70000)
    ∷ listed 5 (some 64000)
    ∷ []

cohort-DistinctSessions : DistinctSessions cohort
cohort-DistinctSessions = (
  (
    λ h. omega (arith, h),
    (λ h. omega (arith, h), (λ h. omega (arith, h), (λ h. omega (arith, h), tt))),
  ),
  (
    (λ h. omega (arith, h), (λ h. omega (arith, h), (λ h. omega (arith, h), tt))),
    ((λ h. omega (arith, h), (λ h. omega (arith, h), tt)), ((λ h. omega (arith, h), tt), (tt, tt))),
  ),
)

rank_by_score-standing_example :
    rank_by_score cohort
    ≡ map
        (λ (row : AttemptListItem ℕ). record row {
          rank = standing cohort row.overall_score;
          cohort_size = length (scored_of cohort);
        })
        cohort
rank_by_score-standing_example =
    rank_by_score-standing thousandths-NumLaws cohort cohort-DistinctSessions
