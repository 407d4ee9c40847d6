-- ===== src/Tests/Practice.antt =====
-- Runs of the practice questions.
use adaptive_hire_exam_platf.Common.{
  ℕ, ◌≡◌, refl, none, some, [], ◌∷◌, ◌++◌, List, true, false, length, min,
}
use adaptive_hire_exam_platf.Engine.Bank.{QuestionStatus}
use adaptive_hire_exam_platf.Engine.Selector.{take}
use adaptive_hire_exam_platf.Engine.Types.{objective}
use adaptive_hire_exam_platf.Practice.{
  Collation, SampleRow, sample_query, pick_samples, for_modules,
}
use adaptive_hire_exam_platf.Practice.Rotation.{for_modules-length}
use adaptive_hire_exam_platf.Practice.Breadth.{firsts, pick_samples-firsts}
use adaptive_hire_exam_platf.Tests.Fixtures.{logic_details}

abbrev sample : ℕ → ℕ → SampleRow ℕ
sample id module_id = record {
  stored = record {
    question = record {
      id = id;
      module_id = module_id;
      question_text = "Which follow?";
      probe_group = none;
      mcq_details = some logic_details;
      personality_details = none;
    };
    status = QuestionStatus.active;
    is_sample = true;
    organisation_id = none;
    forked_from_id = none;
  };
  module_name = "Logic";
  scoring_type = objective;
  created_at = id;
}

abbrev samples : List (SampleRow ℕ)
samples = sample 51 7 ∷ sample 52 7 ∷ sample 53 8 ∷ sample 54 8 ∷ []

abbrev any_order : Collation
any_order = record { name_before = λ a b. false; id_before = λ a b. false }

for_modules-length_example :
    length (for_modules any_order (7 ∷ 8 ∷ []) 1 samples)
    ≡ min 3 (length (sample_query any_order (7 ∷ 8 ∷ []) 1 samples))
for_modules-length_example = for_modules-length any_order (7 ∷ 8 ∷ []) 1 samples refl

pick_samples-firsts_example :
    (rest : List (SampleRow ℕ)) × (pick_samples samples ≡ take 3 (firsts [] samples) ++ rest)
pick_samples-firsts_example = pick_samples-firsts samples
