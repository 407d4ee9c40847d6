-- ===== src/Assessments/PublicLink/Admission.antt =====
-- When a public link is open, and what that says of the assessment.
use adaptive_hire_exam_platf.Common.{
  ℕ, ◌≤◌, ◌<◌, ◌≡◌, ◌↔◌, refl, Option, none, some, true, false, ltb, leb, arith,
}
use adaptive_hire_exam_platf.Common.Equality.{string_eq}
use adaptive_hire_exam_platf.Assessments.Window.{
  Window, open_now, holds_of, effective_window, window_state,
}
use adaptive_hire_exam_platf.Assessments.Window.Laws.{Applies, window_state-open_iff}
use adaptive_hire_exam_platf.Assessments.PublicLink.{
  PublicLinkConfig, link_open, is_missing, public_link_state,
}

-- The time is before a bound, if there is one.
abbrev pub IsBefore : ℕ → Option ℕ → Type 0
IsBefore now none = Unit {0}
IsBefore now (some t) = now < t

-- The time is not before a bound, if there is one.
abbrev pub IsReached : ℕ → Option ℕ → Type 0
IsReached now none = Unit {0}
IsReached now (some t) = t ≤ now

pub record IsOpen (config : PublicLinkConfig) (attempt_count now : ℕ) : Type 0 where
  pub created : is_missing config.token_hash ≡ false
  pub switched_on : config.enabled ≡ true
  pub begun : IsReached now config.opens_at
  pub unclosed : IsBefore now config.closes_at
  pub unexpired : IsBefore now config.expires_at
  pub has_room : IsBefore attempt_count config.max_attempts

passed_iff :
    (bound : Option ℕ) (now : ℕ) → (holds_of bound (λ t. ltb now t) ≡ false) ↔ IsReached now bound
passed_iff none now = (λ h. tt, λ h. refl)
passed_iff (some t) now = (λ h. ground arith, λ h. ground arith)

ahead_iff :
    (bound : Option ℕ) (now : ℕ) → (holds_of bound (λ t. leb t now) ≡ false) ↔ IsBefore now bound
ahead_iff none now = (λ h. tt, λ h. refl)
ahead_iff (some t) now = (λ h. ground arith, λ h. ground arith)

-- A public link admits a candidate exactly if it was created and is switched on, the assessment has
-- opened and not closed, the link's own expiry lies ahead, and fewer attempts than its cap were made;
-- a bound that is not set does not count.
pub public_link_state-IsOpen_iff :
    (config : PublicLinkConfig) (attempt_count now : ℕ)
    → (public_link_state config attempt_count now ≡ link_open) ↔ IsOpen config attempt_count now
unfolding public_link_state
public_link_state-IsOpen_iff config attempt_count now = (
  λ h. record {
    created = ground arith;
    switched_on = ground arith;
    begun = (passed_iff config.opens_at now).0 (ground arith);
    unclosed = (ahead_iff config.closes_at now).0 (ground arith);
    unexpired = (ahead_iff config.expires_at now).0 (ground arith);
    has_room = (ahead_iff config.max_attempts attempt_count).0 (ground arith);
  },
  λ h.
      rw
        (
          h.created,
          h.switched_on,
          (passed_iff config.opens_at now).1 h.begun,
          (ahead_iff config.closes_at now).1 h.unclosed,
          (ahead_iff config.expires_at now).1 h.unexpired,
          (ahead_iff config.max_attempts attempt_count).1 h.has_room,
        )
        refl,
)

-- The time is not past a bound, if there is one.
abbrev pub IsUnpassed : ℕ → Option ℕ → Type 0
IsUnpassed now none = Unit {0}
IsUnpassed now (some t) = now ≤ t

Applies-IsReached_iff :
    (own round : Option ℕ) (now : ℕ)
    → IsReached now round
    → Applies own round (λ t. t ≤ now) ↔ IsReached now own
Applies-IsReached_iff none none now h = (λ k. tt, λ k. tt)
Applies-IsReached_iff none (some t) now h = (λ k. tt, λ k. h)
Applies-IsReached_iff (some own) round now h = (λ k. k, λ k. k)

Applies-IsUnpassed_iff :
    (own round : Option ℕ) (now : ℕ)
    → IsBefore now round
    → Applies own round (λ t. now ≤ t) ↔ IsUnpassed now own
Applies-IsUnpassed_iff none none now h = (λ k. tt, λ k. tt)
Applies-IsUnpassed_iff none (some t) now h = (λ k. tt, λ k. omega (arith, h))
Applies-IsUnpassed_iff (some own) round now h = (λ k. k, λ k. k)

-- While a public link is open, the window that `start` checks is open for an invitation to that
-- assessment exactly if the time is neither before the opening nor after the closing that the
-- invitation itself sets; one that sets none is always within it, and one that sets its own may still
-- be outside.
pub public_link_state-window_state :
    (config : PublicLinkConfig) (attempt_count now : ℕ) (invitation : Window)
    → public_link_state config attempt_count now ≡ link_open
    → (window_state
          (effective_window
            (record { opens_at = config.opens_at; closes_at = config.closes_at })
            invitation)
          now
        ≡ open_now)
      ↔ (IsReached now invitation.opens_at × IsUnpassed now invitation.closes_at)
public_link_state-window_state config attempt_count now invitation h =
    let admitted = (public_link_state-IsOpen_iff config attempt_count now).0 h in
    let assessment : Window = record { opens_at = config.opens_at; closes_at = config.closes_at } in
    let within = window_state-open_iff assessment invitation now in
    let opening = Applies-IsReached_iff invitation.opens_at config.opens_at now admitted.begun in
    let closing =
      Applies-IsUnpassed_iff invitation.closes_at config.closes_at now admitted.unclosed in
    (
      λ e. (opening.0 (within.0 e).0, closing.0 (within.0 e).1),
      λ k. within.1 (opening.1 (k.0), closing.1 (k.1)),
    )
