-- ===== src/Ingestion/Time/Ranges/Sides.antt =====
-- ingestion/time.py: which moments of what a text names a window of the past or of the future keeps.
use mathlib.Core.Path.{subst}
use nd_mind.Base.{
  ℕ, ◌≤◌, ◌<◌, ◌≡◌, inl, inr, true, false, ◌&&◌, Bool-cases, refl, Option, none, some, String,
  arith,
}
use nd_mind.Ingestion.Result.{Result, ok, raise, ◌>>=◌}
use nd_mind.Ingestion.Time.Spans.{TurnNow, Relative}
use nd_mind.Ingestion.Time.Resolve.{ResolvePatterns, TimeClock}
use nd_mind.Ingestion.Time.Windows.{
  WindowDirection, Window, Span, from_start, before_end, straddles, clip, CalendarText,
}
use nd_mind.Ingestion.Time.Anchors.{AnchorText}
use nd_mind.Ingestion.Time.Ranges.{RangePatterns, window_by, window_or, clipped, resolve_window}

abbrev pub IsIn : Option ℕ → Option ℕ → ℕ → Type 0
IsIn s e t = (from_start s t && before_end e t) ≡ true

-- The moments that a recall asks for: those before now, those from now on, or all.
abbrev pub IsAsked : WindowDirection → ℕ → ℕ → Type 0
IsAsked WindowDirection.past now t = t < now
IsAsked WindowDirection.future now t = now ≤ t
IsAsked WindowDirection.any now t = Unit

-- A straddling span has a moment before now.
earlier :
    (s e : Option ℕ) (now : ℕ)
    → 0 < now
    → straddles s e now ≡ true
    → (t : ℕ) × IsIn s e t × (t < now)
earlier none none now p h = (0, refl, p)
earlier none (some e) now p h = (0, ground (arith, h), p)
earlier (some s) none now p h = (s, ground arith, ground (arith, h))
earlier (some s) (some e) now p h = (s, ground (arith, h), ground (arith, h))

at_now : (s e : Option ℕ) (now : ℕ) → straddles s e now ≡ true → IsIn s e now
at_now none none now h = refl
at_now none (some e) now h = ground (arith, h)
at_now (some s) none now h = ground (arith, h)
at_now (some s) (some e) now h = ground (arith, h)

-- What does not straddle now and has a moment on one side has none on the other.
all_before :
    (s e : Option ℕ) (now u t : ℕ)
    → straddles s e now ≡ false
    → IsIn s e u
    → u < now
    → IsIn s e t
    → t < now
all_before none none now u t h a b c = cc
all_before none (some e) now u t h a b c = ground arith
all_before (some s) none now u t h a b c = ground arith
all_before (some s) (some e) now u t h a b c = ground arith

all_after :
    (s e : Option ℕ) (now u t : ℕ)
    → straddles s e now ≡ false
    → IsIn s e u
    → now ≤ u
    → IsIn s e t
    → now ≤ t
all_after none none now u t h a b c = cc
all_after none (some e) now u t h a b c = ground arith
all_after (some s) none now u t h a b c = ground arith
all_after (some s) (some e) now u t h a b c = ground arith

up_to_now :
    (s e : Option ℕ) (now t : ℕ)
    → straddles s e now ≡ true
    → t < now
    → IsIn s e t
    → IsIn s (some now) t
up_to_now s none now t h b c = ground arith
up_to_now s (some e) now t h b c = ground arith

within_past :
    (s e : Option ℕ) (now t : ℕ)
    → straddles s e now ≡ true
    → IsIn s (some now) t
    → IsIn s e t × (t < now)
within_past s none now t h c = (ground arith, ground arith)
within_past s (some e) now t h c = (ground arith, ground arith)

from_now :
    (s e : Option ℕ) (now t : ℕ)
    → straddles s e now ≡ true
    → now ≤ t
    → IsIn s e t
    → IsIn (some now) e t
from_now none e now t h b c = ground arith
from_now (some s) e now t h b c = ground arith

within_future :
    (s e : Option ℕ) (now t : ℕ)
    → straddles s e now ≡ true
    → IsIn (some now) e t
    → IsIn s e t × (now ≤ t)
within_future none e now t h c = (ground arith, ground arith)
within_future (some s) e now t h c = (ground arith, ground arith)

-- Of a span the asked moments, where it has some, and else all of it.
pub record IsClipped (direction : WindowDirection) (now : ℕ) (s e s' e' : Option ℕ) : Type 0 where
  pub within : (t : ℕ) → IsIn s' e' t → IsIn s e t
  pub keeps : (t : ℕ) → IsIn s e t → IsAsked direction now t → IsIn s' e' t
  pub only :
      (u : ℕ)
      → IsIn s e u
      → IsAsked direction now u
      → (t : ℕ) → IsIn s' e' t
      → IsAsked direction now t
  pub whole :
      ((u : ℕ) → IsIn s e u → ¬ IsAsked direction now u) → (t : ℕ) → IsIn s e t → IsIn s' e' t

clip-IsClipped :
    (s e : Option ℕ) (now : ℕ) (direction : WindowDirection)
    → 0 < now
    → IsClipped direction now s e (clip s e now direction).0 (clip s e now direction).1
unfolding clip
clip-IsClipped s e now WindowDirection.any p = record {
  within = λ t i. i;
  keeps = λ t i a. i;
  only = λ u i a t j. tt;
  whole = λ n t i. i;
}
clip-IsClipped s e now WindowDirection.past p = elim (Bool-cases (straddles s e now)) [
  | inl y ↦
      let first = earlier s e now p y in
      rw y (record {
        within = λ t i. (within_past s e now t y i).0;
        keeps = λ t i a. up_to_now s e now t y a i;
        only = λ u i a t j. (within_past s e now t y j).1;
        whole = λ n t i. absurd (n first.0 first.1 first.2);
      })
  | inr n ↦ rw n (record {
    within = λ t i. i;
    keeps = λ t i a. i;
    only = λ u i a t j. all_before s e now u t n i a j;
    whole = λ h t i. i;
  })
]
clip-IsClipped s e now WindowDirection.future p = elim (Bool-cases (straddles s e now)) [
  | inl y ↦ rw y (record {
    within = λ t i. (within_future s e now t y i).0;
    keeps = λ t i a. from_now s e now t y a i;
    only = λ u i a t j. (within_future s e now t y j).1;
    whole = λ n t i. absurd (n now (at_now s e now y) (omega arith));
  })
  | inr n ↦ rw n (record {
    within = λ t i. i;
    keeps = λ t i a. i;
    only = λ u i a t j. all_after s e now u t n i a j;
    whole = λ h t i. i;
  })
]

-- The window of a span that was found: its bounds are the span's, clipped, and the rest is what was asked.
pub record IsWindowOf (direction : WindowDirection) (now : ℕ) (found : Result (Option Span))
    (w : Window) : Type 0 where
  pub span : Span
  pub is_found : found ≡ ok (some span)
  pub bounds : IsClipped direction now span.start span.end w.span.start w.span.end
  pub precision : w.span.precision ≡ span.precision
  pub rule : w.span.rule ≡ span.rule

module _ (expression : String) (clock : TimeClock) (now : ℕ) (direction : WindowDirection)
    (label : Option String) (w : Window) (h : 0 < now) where
  abbrev made : Span → Window
  made s = record {
    expression = expression;
    clock = clock;
    span = clipped s now direction;
    anchor = label;
  }

  abbrev Asked : Result (Option Span) → Window → Type 0
  Asked m v =
      IsWindowOf direction now m v
      × (v.expression ≡ expression)
      × (v.clock ≡ clock)
      × (v.anchor ≡ label)

  made-Asked : (s : Span) → Asked (ok (some s)) (made s)
  made-Asked s = (
    record {
      span = s;
      is_found = refl;
      bounds = clip-IsClipped s.start s.end now direction h;
      precision = refl;
      rule = refl;
    },
    refl,
    refl,
    refl,
  )

  returned :
      (m : Result (Option Span)) → (m >>= λ f. window_or f >>= λ s. ok (made s)) ≡ ok w → Asked m w
  returned (ok (some s)) e = let q : made s ≡ w = cc in subst (Asked (ok (some s))) q (made-Asked s)
  returned (ok none) e = cc
  returned (raise x) e = cc

module _ (r : Relative) (p : ResolvePatterns) (bare : String → String)
    (kind_of : String → CalendarText) (q : RangePatterns)
    (anchor_text : String → Option AnchorText) where
  -- A window is what the rules find for the text, clipped: a recall of the past keeps of it just the moments
  -- before now, one of the future just those from now on, unless it has no such moment and is kept whole.
  -- It has the precision and the rule that were found, and the expression, clock and label that were given.
  pub resolve_window-IsWindowOf :
      (expression : String) (clock : TimeClock) (now : TurnNow) (direction : WindowDirection)
      (event : Option (ℕ × Option ℕ)) (label : Option String) (w : Window)
      → 0 < now.instant
      → resolve_window r p bare kind_of q anchor_text expression clock now direction event label
        ≡ ok w
      → IsWindowOf direction now.instant
          (window_by r p bare kind_of q anchor_text
            (q.window_text (p.norm expression))
            now
            direction
            event)
          w
        × (w.expression ≡ expression)
        × (w.clock ≡ clock)
        × (w.anchor ≡ label)
  unfolding resolve_window
  resolve_window-IsWindowOf expression clock now direction event label w h e =
      returned expression clock now.instant direction label w h
        (window_by r p bare kind_of q anchor_text (q.window_text (p.norm expression)) now direction
          event)
        e
