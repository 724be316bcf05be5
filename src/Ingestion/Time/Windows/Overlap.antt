-- ===== src/Ingestion/Time/Windows/Overlap.antt =====
-- ingestion/time.py: what a window's tests say of the moments in it, and what clipping it leaves.
use nd_mind.Base.{
  ℕ, ◌≤◌, ◌<◌, max, ◌≡◌, refl, ◌↔◌, ◌⊎◌, inl, inr, true, Option, none, some, leb, ◌&&◌, Bool-cases,
  arith,
}
use nd_mind.Ingestion.Time.Windows.{
  Window, contains, overlaps, from_start, before_end, behind_start,
}

-- A moment of the event `[s, e)`; an event with no end, or one that is not behind its start, is its
-- start.
unfoldable pub IsDuring : ℕ → Option ℕ → ℕ → Type 0
IsDuring s none t = t ≡ s
IsDuring s (some e) t = (s ≤ t) × ((t < e) ⊎ ((e ≤ s) × (t ≡ s)))

abbrev IsOrdered : Option ℕ → Option ℕ → Type 0
IsOrdered (some s) (some e) = s < e
IsOrdered _ _ = Unit

-- A window that some moment lies in.
abbrev pub IsProper : Window → Type 0
IsProper w = IsOrdered w.span.start w.span.end

abbrev entry : Option ℕ → ℕ → ℕ
entry none s = s
entry (some a) s = max a s

-- The later of an event's start and the window's lies in both.
inside :
    (a b : Option ℕ) (s e : ℕ)
    → IsOrdered a b
    → s < e
    → (before_end b s && behind_start a e) ≡ true
    → (s ≤ entry a s)
      × (entry a s < e)
      × ((from_start a (entry a s) && before_end b (entry a s)) ≡ true)
inside none none s e h lt o = ground arith
inside none (some b) s e h lt o = ground arith
inside (some a) none s e h lt o = ground arith
inside (some a) (some b) s e h lt o = ground arith

module _ (w : Window) where
  abbrev Met : ℕ → Option ℕ → Type 0
  Met s e = (t : ℕ) × IsDuring s e t × (contains w t ≡ true)

  met : (s : ℕ) (e : Option ℕ) → IsProper w → overlaps w s e ≡ true → Met s e
  unfolding overlaps IsDuring
  met s none h o = (s, refl, o)
  met s (some e) h o = elim (Bool-cases (leb e s)) [
    | inl le ↦ (s, (omega arith, inr (ground (arith, le), refl)), rw le at o)
    | inr gt ↦
        let i = inside w.span.start w.span.end s e h (ground (arith, gt)) (rw gt at o) in
        (entry w.span.start s, (i.0, inl i.1), i.2)
  ]

  meets :
      (s : ℕ) (e : Option ℕ) (t : ℕ) → IsDuring s e t → contains w t ≡ true → overlaps w s e ≡ true
  unfolding overlaps IsDuring
  meets s none t d c = ground arith
  meets s (some e) t d c = ground arith

-- An event overlaps a window in which some moment lies just where the two have a moment in common.
pub overlaps-Met :
    (w : Window) (s : ℕ) (e : Option ℕ)
    → IsProper w
    → (overlaps w s e ≡ true) ↔ ((t : ℕ) × IsDuring s e t × (contains w t ≡ true))
overlaps-Met w s e h = (met w s e h, λ m. meets w s e m.0 m.1 m.2)
