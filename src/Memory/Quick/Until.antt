-- ===== src/Memory/Quick/Until.antt =====
-- Until when memory/quick.py keeps an item in the quick layer.
use nd_mind.Base.{
  ℕ, ◌≤◌, Bool, Bool-cases, true, false, Option, none, some, List, [], ◌∷◌, ◌≡◌, ◌↔◌, refl, inl,
  inr, ◌∙◌, arith, All, max, leb, ap,
}
use nd_mind.Base.Membership.{mem-All}
use nd_mind.Memory.Records.{ItemContent, TriggerContent}
use nd_mind.Memory.Recurrence.{Clock, Occurrence}
use nd_mind.Memory.Quick.{
  Ground, QuickDecision, QuickReason, decide, grounds, last_end, plan_time, quick_layer,
}
use nd_mind.Memory.Quick.Grounds.{Covers, IsGround, IsGround-IsListed, grounds-All}
use mathlib.Core.List.{Memᴰ}

Covers-less :
    (u : Option ℕ) (r q : QuickReason) (a b : ℕ)
    → a ≤ b
    → Covers u (q, some b)
    → Covers u (r, some a)
Covers-less none r q a b h c = tt
Covers-less (some u) r q a b h c = omega (arith, c, h)

Covers-trans :
    (u v : Option ℕ) (r : QuickReason) (g : Ground) → Covers u (r, v) → Covers v g → Covers u g
Covers-trans none v r g c d = tt
Covers-trans (some u) none r g c d = absurd c
Covers-trans (some u) (some v) r (q, none) c d = absurd d
Covers-trans (some u) (some v) r (q, some w) c d = omega arith

All-Covers : (gs : List Ground) → All (Covers none) gs
All-Covers [] = tt
All-Covers (g ∷ gs) = (tt, All-Covers gs)

-- The last end is that of one reason, and no reason's is later.
record IsLast (gs : List Ground) (u : Option ℕ) : Type 0 where
  reason : QuickReason
  one : Memᴰ (reason, u) gs
  covers : All (Covers u) gs

of_first :
    (u v : ℕ) (r q k : QuickReason) (e : Option ℕ) (gs : List Ground)
    → max u v ≡ u
    → Memᴰ (k, e) ((r, some (max u v)) ∷ gs)
    → Memᴰ (k, e) ((r, some u) ∷ (q, some v) ∷ gs)
of_first u v r q k e gs same (Memᴰ.head w) = Memᴰ.head (w ∙ ap (λ n. (r, some n)) same)
of_first u v r q k e gs same (Memᴰ.tail m) = Memᴰ.tail (Memᴰ.tail m)

of_second :
    (u v : ℕ) (r q k : QuickReason) (e : Option ℕ) (gs : List Ground)
    → max u v ≡ v
    → Memᴰ (k, e) ((q, some (max u v)) ∷ gs)
    → Memᴰ (k, e) ((r, some u) ∷ (q, some v) ∷ gs)
of_second u v r q k e gs same (Memᴰ.head w) = Memᴰ.tail (Memᴰ.head (w ∙ ap (λ n. (q, some n)) same))
of_second u v r q k e gs same (Memᴰ.tail m) = Memᴰ.tail (Memᴰ.tail m)

both_covered :
    (u v : ℕ) (k r q : QuickReason) (e : Option ℕ) (gs : List Ground)
    → All (Covers e) ((k, some (max u v)) ∷ gs)
    → All (Covers e) ((r, some u) ∷ (q, some v) ∷ gs)
both_covered u v k r q e gs h = (
  Covers-less e r k u (max u v) (omega arith) h.0,
  (Covers-less e q k v (max u v) (omega arith) h.0, h.1),
)

last_end-IsLast :
    (u : Option ℕ) (r : QuickReason) (gs : List Ground) → IsLast ((r, u) ∷ gs) (last_end u gs)
last_end-IsLast none r gs = record {
  reason = r;
  one = Memᴰ.head refl;
  covers = (tt, All-Covers gs);
}
last_end-IsLast (some u) r [] = record {
  reason = r;
  one = Memᴰ.head refl;
  covers = (omega arith, tt);
}
last_end-IsLast (some u) r ((q, none) ∷ gs) = record {
  reason = q;
  one = Memᴰ.tail (Memᴰ.head refl);
  covers = (tt, (tt, All-Covers gs));
}
last_end-IsLast (some u) r ((q, some v) ∷ gs) = elim (Bool-cases (leb v u)) [
  | inl y ↦
      let same : max u v ≡ u = ground (arith, y) in
      let ih = last_end-IsLast (some (max u v)) r gs in
      record {
        reason = ih.reason;
        one = of_first u v r q ih.reason (last_end (some (max u v)) gs) gs same ih.one;
        covers = both_covered u v r r q (last_end (some (max u v)) gs) gs ih.covers;
      }
  | inr n ↦
      let same : max u v ≡ v = ground (arith, n) in
      let ih = last_end-IsLast (some (max u v)) q gs in
      record {
        reason = ih.reason;
        one = of_second u v r q ih.reason (last_end (some (max u v)) gs) gs same ih.one;
        covers = both_covered u v q r q (last_end (some (max u v)) gs) gs ih.covers;
      }
]

module _ (item : ItemContent) (now : ℕ) (triggers : List TriggerContent) (horizon recent : ℕ)
    (frequent : Bool) (next : Option Occurrence) where
  abbrev IsOwn : Ground → Type 0
  IsOwn = IsGround item now triggers horizon recent frequent next

  -- An item is in the quick layer just if there is a reason; the reason that is given is one, and it stays
  -- until the end of one of its reasons, which no reason's end is after.
  pub record IsTimely (d : QuickDecision) : Type 0 where
    pub in_quick : ((g : Ground) × IsOwn g) ↔ (d.in_quick ≡ true)
    pub reason : (r : QuickReason) → d.reason ≡ some r → (u : Option ℕ) × IsOwn (r, u)
    pub ends : d.in_quick ≡ true → (r : QuickReason) × IsOwn (r, d.until)
    pub covers : (g : Ground) → IsOwn g → Covers d.until g

  covered :
      (gs : List Ground) (u : Option ℕ) (g : Ground)
      → All (Covers u) gs
      → (v : Option ℕ) × Memᴰ (g.0, v) gs × Covers v g
      → Covers u g
  covered gs u g c (v, m, k) = Covers-trans u v g.0 g (mem-All (Covers u) gs (g.0, v) c m) k

  decide-IsTimely :
      (gs : List Ground)
      → All IsOwn gs
      → ((g : Ground) → IsOwn g → (v : Option ℕ) × Memᴰ (g.0, v) gs × Covers v g)
      → IsTimely (decide gs)
  unfolding decide
  decide-IsTimely [] all listed = record {
    in_quick = (λ (g, o). none_listed (listed g o), λ e. cc);
    reason = λ r e. cc;
    ends = λ e. cc;
    covers = λ g o. tt;
  }
    where
      none_listed :
          {g : Ground} → (v : Option ℕ) × Memᴰ {A = Ground} (g.0, v) [] × Covers v g → false ≡ true
      none_listed (v, m, k) = elim m [ ]
  decide-IsTimely ((r, u) ∷ gs) all listed =
      let last = last_end-IsLast u r gs in
      record {
        in_quick = (λ x. refl, λ e. ((r, u), all.0));
        reason = λ q e. let same : r ≡ q = cc in (u, rw (← same) all.0);
        ends = λ e.
            (last.reason, mem-All IsOwn ((r, u) ∷ gs) (last.reason, last_end u gs) all last.one);
        covers = λ g o. covered ((r, u) ∷ gs) (last_end u gs) g last.covers (listed g o);
      }

-- Where the item's rule can be expanded, an item is in the quick layer just if one of its reasons holds: a
-- plan within the horizon, a reminder that is pending, an open task, a recent mention or frequent retrieval.
-- The reason that is given holds, and the item stays until the latest end of those that hold, for good where
-- one has none.
pub quick_layer-IsTimely :
    (clock : Clock) (item : ItemContent) (now : ℕ) (triggers : List TriggerContent)
    (horizon recent : ℕ) (frequent : Bool) (next : Option Occurrence)
    → plan_time clock item now ≡ some next
    → (d : QuickDecision) × (quick_layer clock item now triggers horizon recent frequent ≡ some d)
      × IsTimely item now triggers horizon recent frequent next d
unfolding quick_layer
quick_layer-IsTimely clock item now triggers horizon recent frequent next e =
    let gs = grounds item now triggers horizon recent frequent next in
    let timely =
      decide-IsTimely item now triggers horizon recent frequent next gs
        (grounds-All item now triggers horizon recent frequent next)
        (IsGround-IsListed item now triggers horizon recent frequent next) in
    rw e (decide gs, refl, timely)
