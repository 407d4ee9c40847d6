-- ===== src/Engine/Selector/Serving.antt =====
-- The engine's two calls in turn: what it serves, it can count.
use adaptive_hire_exam_platf.Common.{
  ℕ, suc, ◌+◌, ◌++◌, ◌<◌, ◌≡◌, sym, ap, subst, Option, none, some, List, [], ◌∷◌, Bool, String,
  arith,
}
use adaptive_hire_exam_platf.Failures.{ok}
use adaptive_hire_exam_platf.Engine.Numbers.{Num}
use adaptive_hire_exam_platf.Engine.Types.{ModuleRunState}
use adaptive_hire_exam_platf.Engine.Questions.{Question}
use adaptive_hire_exam_platf.Engine.Probe.{mark_served, due_twin}
use adaptive_hire_exam_platf.Engine.Run.{
  question, next_step, mark_probe_served, SubmittedAnswer, Recorded, record_answer,
}
use adaptive_hire_exam_platf.Engine.Run.Answers.{
  ModuleInv, Serveable, Counted, record_answer-Counted,
}
use adaptive_hire_exam_platf.Engine.Run.Next.{next_step-question_iff}
use adaptive_hire_exam_platf.Engine.Bank.{StoredQuestion}
use adaptive_hire_exam_platf.Engine.Selector.{Site, select_next}
use adaptive_hire_exam_platf.Engine.Selector.Fitness.{DistinctIds, select_next-Serveable}

module _ {R : Type 0} where
  -- `advance` marks the question as seen and its group as served.
  abbrev pub shown_question : ModuleRunState R → Question R → ModuleRunState R
  shown_question state q =
      mark_probe_served (record state { seen_question_ids = state.seen_question_ids ++ q.id ∷ [] })
        q.probe_group

  mark_probe_served-frame :
      (state : ModuleRunState R) (group : Option String)
      → mark_probe_served state group
        ≡ record state { served_probe_groups = (mark_probe_served state group).served_probe_groups }
  unfolding mark_probe_served mark_served
  mark_probe_served-frame state group = ground arith

  -- Neither list matters to the invariant, nor to what may be served.
  reseen-ModuleInv :
      (offset : ℕ) (state : ModuleRunState R) (seen : List ℕ) (groups : List String)
      → ModuleInv offset state
      → ModuleInv offset (record state { seen_question_ids = seen; served_probe_groups = groups })
  reseen-ModuleInv offset state seen groups v = record {
    within = v.within;
    right = v.right;
    window = v.window;
    paired = record { few = v.paired.few; each = v.paired.each; single = v.paired.single };
  }

  reseen-Serveable :
      (state : ModuleRunState R) (seen : List ℕ) (groups : List String) (group : Option String)
      → Serveable state group
      → Serveable (record state { seen_question_ids = seen; served_probe_groups = groups }) group
  unfolding due_twin
  reseen-Serveable state seen groups none f = tt
  reseen-Serveable state seen groups (some group) f = f

  -- What an answer to a shown question needs.
  abbrev Ready : ℕ → Option String → ModuleRunState R → Type 0
  Ready offset group state =
      ModuleInv offset state × Serveable state group × (state.answered < state.question_count)

  shown-Ready :
      (offset : ℕ) (state : ModuleRunState R) (q : Question R)
      → Ready offset q.probe_group state
      → Ready offset q.probe_group (shown_question state q)
  shown-Ready offset state q (v, free, slot) =
      let seen : List ℕ = state.seen_question_ids ++ q.id ∷ [] in
      let marked = record state { seen_question_ids = seen } in
      let groups = (mark_probe_served marked q.probe_group).served_probe_groups in
      subst (Ready offset q.probe_group) (sym (mark_probe_served-frame marked q.probe_group)) (
        reseen-ModuleInv offset state seen groups v,
        reseen-Serveable state seen groups q.probe_group free,
        slot,
      )

module _ {R : Type 0} ⦃num : Num R⦄ (bank : List (StoredQuestion R)) (in_pool : ℕ → ℕ → Bool)
    (draw : Site → ℕ → ℕ) (legacy_turn : Bool) (ids : DistinctIds bank) where
  -- The engine's calls compose. Let a module's run be in order and the ids of the bank be different.
  -- If `nextStep` serves a question that the selector chose, and the engine then accepts an answer
  -- to it under the next number of the session, that answer is counted once and the module's run is
  -- in order again: nothing more is needed of the question.
  pub next_step-record_answer :
      (offset now : ℕ) (state : ModuleRunState R) (q : Question R) (answer : SubmittedAnswer)
      (r : Recorded R)
      → ModuleInv offset state
      → next_step (select_next bank in_pool draw legacy_turn) state now ≡ question q
      → record_answer (shown_question state q) q answer (suc (offset + state.answered)) ≡ ok r
      → Counted offset (shown_question state q) r.state
  next_step-record_answer offset now state q answer r v served accepted =
      let step =
        (next_step-question_iff (select_next bank in_pool draw legacy_turn) state now q).0 served in
      let free = select_next-Serveable bank in_pool draw legacy_turn ids state q step.0 in
      let ready = shown-Ready offset state q (v, free, step.2) in
      record_answer-Counted offset (shown_question state q) q answer (suc (offset + state.answered))
        ready.0 ready.2 ready.1
        (omega (
          arith,
          ap (λ (m : ModuleRunState R). m.answered)
              (mark_probe_served-frame
                (record state { seen_question_ids = state.seen_question_ids ++ q.id ∷ [] })
                q.probe_group),
        ))
        r accepted
