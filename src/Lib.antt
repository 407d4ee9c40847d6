-- ===== src/Lib.antt =====
-- AdaptiveHire, an examination platform: the adaptive engine, the session runtime above it, and the
-- assessment window, from backend/src.
--
-- A candidate sits an assessment of several modules. The session service (sessions/) keeps one state
-- per session, drives it to the next thing that the candidate sees, records answers and closes
-- modules and sessions. It asks the adaptive engine (adaptive-engine/) what comes next in a module and
-- what an answer means: the engine scores it (evaluation/), moves the ability or the trait estimates
-- (ability-estimator/), registers repeat probes (consistency-probe/) and decides when a module ends
-- (stopping-engine/). The question selector (question-selector/) chooses from the bank what comes next.
-- The window (assessments/assessment-window.ts) says when an assessment may be
-- sat at all, and the public link (assessments/public-link.ts) whom it lets in without a list; before
-- it begins, the practice service (question-bank/practice.service.ts) shows a few samples. After the
-- session the reports (reports/) turn the results of its modules into composites, findings and a
-- recommendation, and the candidate sees a status bar (invitations/candidate-attempt.ts).
--
-- Files:
--   Common, Common/*       list, option and number helpers; equality as an instance (`===`)
--   Failures               every exception that the modelled code throws, with its HTTP status, and
--                          results that are a value or a failure
--   Assessments/Window     backend/src/assessments/assessment-window.ts: effectiveWindow, windowState
--   Assessments/PublicLink backend/src/assessments/public-link.ts: publicLinkState
--   Invitations/Attempt    backend/src/invitations/candidate-attempt.ts: buildStages
--   Practice               backend/src/question-bank/practice.service.ts: forModules
--   Reports/Profiles       backend/src/reports/behavioral-profiles.ts: buildBehavioralProfiles
--   Reports/Builder        backend/src/reports/report-builder.ts: expectedCorrectByChance,
--                          normaliseAbility, blendScores, recommend, coverageRatio, the strengths and
--                          weaknesses, buildReport without its narrative
--   Reports/Ranking        rankByScore of backend/src/reports/reports.service.ts
--   Engine/Numbers         JavaScript numbers as an interface `Num`; clamp, round1, round2, Math.max
--   Engine/Constants       backend/src/adaptive-engine/adaptive-engine.constants.ts
--   Engine/Types, Dict     backend/src/adaptive-engine/engine.types.ts; `Record<string, T>`
--   Engine/Questions       the question entities of backend/src/question-bank/entities
--   Engine/Estimator       backend/src/adaptive-engine/ability-estimator: expectedScore, update,
--                          information, the confidences, trackAbility; Estimator/Traits: the traits
--   Engine/Probe           backend/src/adaptive-engine/consistency-probe: dueTwin, blockedGroups,
--                          markServed, canOpenPair, record, close, results, signature;
--                          Probe/Comparison: compare, compareTraits
--   Engine/Evaluation      backend/src/adaptive-engine/evaluation: evaluateMcq, evaluatePersonality,
--                          evaluateRanking, achievableTraitRange; Evaluation/Permutations
--   Engine/Stopping        backend/src/adaptive-engine/stopping-engine
--   Engine/Run             backend/src/adaptive-engine/adaptive-engine.service.ts: nextStep,
--                          recordAnswer and the final scores
--   Engine/Bank            the bank's rows (question.entity.ts) and question-visibility.ts
--   Engine/Selector        backend/src/adaptive-engine/question-selector: baseQuery, the queries for
--                          twins, probe openers, objective and trait modules, selectNext;
--                          Selector/Fitness, Selector/Serving: what it may return
--   Session/State, Views   backend/src/sessions/session-state.ts, session-views.ts and the rows
--   Session/World          what a session reads and writes outside itself: the Redis entry and module
--                          clocks, the database rows, the question bank, the two queues
--   Session/Finish         applyAnswer, completeModule, persistModuleResult, finalize of
--                          backend/src/sessions/sessions.service.ts
--   Session/Advance        advance, one pass of its loop at a time
--   Session/Runtime        load, currentStep, startCurrentModule, submitAnswer, autoSubmitSession
--   Session/Assessment     the assessment, its modules and the invitation as a session reads them
--   Session/Rebuild        rehydrate, replayTraitAnswer: the live state from the rows
--   Session/Start          start, createSession, resume, finishedViewFromDb
--   Session/Durable/*      rows and live state together, in every history of a session
--   Tests, Tests/*         concrete inputs
-- Files below a component hold its theorems and are named for what they prove.
--
-- State. A method that mutates its argument returns the new state. The session's operations are
-- functions from a `World` to an outcome, a value or a failure, with the world as the writes made
-- before left it. The current module is a reference into the session's list of modules; a write to it
-- is a write at the current index. The clock is an argument: one reading per operation, and one per
-- pass of the loop of `advance`. Identifiers are numbers, compared for equality; where the query of the
-- practice questions orders them and the module names, the database's order is an argument
-- (`Collation`). Times are epoch milliseconds.
--
-- Numbers. Counts, times and sequence numbers are natural numbers. The doubles of the estimates and
-- weights are a type `R` with the operations of `Num`: the theorems depend on which values are stored
-- where, and those on bounds and on the order of recommendations on the laws of the order, `NumLaws`.
-- A stored estimate is the one that `round2` gives; the columns keep two decimals.
--
-- Loops. `advance` keeps the source's own bound, modules * 2 + 3 passes, which is proved to be enough;
-- the round-robin of the practice questions runs on as many rounds as its target, which is proved to be
-- enough; `permutations` recurses on the number of items, which is enough because each pick removes one.
--
-- Arguments. The selector's random draws are a function from the place that draws and the number of
-- rows to an index, and its random turn for a legacy question is a Boolean; the pool of an assessment
-- is a function on ids. Rows that an `ORDER BY` ties keep the bank's order. What other requests do
-- between the look and the insert of `start` is a function of the world; the worlds of a history are
-- otherwise those between whole calls.
--
-- Failures. A failure of the model is an exception that the service itself throws. Calls to Redis, to
-- the database and to the queues succeed here, but for the unique keys that an insert may violate; in
-- the program they can fail, for instance the save to Redis after an answer's row is inserted
-- (backend/src/sessions/sessions.service.ts, submitAnswer), which leaves the count of the live session
-- one behind. Two calls for one session that overlap, other than two starts, are not modelled either.
--
-- Not modelled. The sweeper of expired sessions, the attempt timing of the reports, the invitations'
-- service, the narrative and the PDF of a report, the tokens of public links; neither are
-- authentication, proctoring, mail, queues, migrations and the other parts that are database access or
-- glue, and the frontend.
pub mod Common
pub mod Failures
pub mod Assessments
pub mod Engine
pub mod Invitations
pub mod Practice
pub mod Reports
pub mod Session
pub mod Tests
