-- ===== src/Memory/Quick/Grounds.antt =====
-- Why memory/quick.py keeps an item in the quick layer: its reasons, in terms of the item, its triggers,
-- its next occurrence and the moment.
use nd_mind.Base.{
  ℕ, ◌+◌, ◌*◌, ◌≤◌, ◌<◌, Bool, Bool-cases, true, false, Option, none, some, List, [], ◌∷◌, ◌++◌,
  ◌≡◌, refl, ap, inl, inr, ◌⊎◌, arith, All, All-append, max, leb, ltb, if◌then◌else◌, ◌&&◌, str_eq,
  and-true,
}
use nd_mind.Core.{Kind, TriggerOn, TriggerState}
use nd_mind.Memory.Records.{ItemContent, TriggerContent}
use nd_mind.Memory.Recurrence.{Occurrence, day}
use nd_mind.Memory.Quick.{
  is_task, Ground, QuickReason, grounds, is_pending, last_pending, later, pending_ground,
  plan_ground,
}
use mathlib.Core.List.Memᴰ
use mathlib.Core.List.{Memᴰ}

-- A pending trigger on a time that is not over.
pub record IsPending (now at : ℕ) (t : TriggerContent) : Type 0 where
  pub state : t.state ≡ TriggerState.pending
  pub on : t.on ≡ TriggerOn.time
  pub fires : t.fires_at ≡ some at
  pub ahead : now ≤ at

module _ (item : ItemContent) (now : ℕ) (triggers : List TriggerContent) (horizon recent : ℕ)
    (frequent : Bool) (next : Option Occurrence) where
  -- A reason, with its end: a plan within the horizon that is not over, a pending reminder, an open task, a
  -- mention in the last days, or frequent retrieval.
  abbrev pub IsGround : Ground → Type 0
  IsGround (QuickReason.plan_within, some u) =
      (s : ℕ) × (next ≡ some (s, u)) × (s ≤ now + horizon * day) × (now < u)
  IsGround (QuickReason.pending_reminder, some u) =
      (t : TriggerContent) × Memᴰ t triggers × IsPending now u t
  IsGround (QuickReason.open_task, none) =
      (item.kind ≡ Kind.task) × (str_eq item.state "open" ≡ true)
  IsGround (QuickReason.mentioned, some u) =
      (0 < recent) × (u ≡ item.mentioned_at + recent * day) × (now < u)
  IsGround (QuickReason.frequently_retrieved, some u) =
      (frequent ≡ true) × (u ≡ now + max recent 1 * day)
  IsGround _ = ⊥

task_sound : (k : Kind) → is_task k ≡ true → k ≡ Kind.task
task_sound Kind.task e = refl
task_sound _ e = cc

-- The trigger that a moment of a pending trigger is of.
is_pending-IsPending :
    (now at : ℕ) (t : TriggerContent)
    → is_pending t.state t.on t.fires_at now ≡ some at
    → IsPending now at t
is_pending-IsPending now at t e =
    let (s, o, f, l) = parts t.state t.on t.fires_at e in
    record { state = s; on = o; fires = f; ahead = l }
  where
    parts :
        (s : TriggerState) (o : TriggerOn) (f : Option ℕ)
        → is_pending s o f now ≡ some at
        → (s ≡ TriggerState.pending) × (o ≡ TriggerOn.time) × (f ≡ some at) × (now ≤ at)
    parts TriggerState.pending TriggerOn.time (some u) e = elim (Bool-cases (leb now u)) [
      | inl y ↦
          let same : u ≡ at = ground (arith, rw y at e) in
          (refl, refl, ap some same, ground (arith, y, same))
      | inr n ↦ let bad = rw n at e in cc
    ]
    parts TriggerState.pending TriggerOn.time none e = cc
    parts TriggerState.pending _ f e = cc
    parts _ o f e = cc

IsPending-is_pending :
    (now at : ℕ) (t : TriggerContent)
    → IsPending now at t
    → is_pending t.state t.on t.fires_at now ≡ some at
IsPending-is_pending now at t p =
    let yes_ : leb now at ≡ true = let a = p.ahead in ground (arith, a) in
    rw (p.state, p.on, p.fires, yes_) refl

later-one : (a b : Option ℕ) (at : ℕ) → later a b ≡ some at → (a ≡ some at) ⊎ (b ≡ some at)
later-one none b at e = inr e
later-one (some a) none at e = inl e
later-one (some a) (some b) at e = elim (Bool-cases (leb a b)) [
  | inl y ↦ inr (ground (arith, e, y))
  | inr n ↦ inl (ground (arith, e, n))
]

-- The last pending moment is that of one of the triggers.
last_pending-IsPending :
    (now at : ℕ) (ts : List TriggerContent)
    → last_pending now ts ≡ some at
    → (t : TriggerContent) × Memᴰ t ts × IsPending now at t
last_pending-IsPending now at [] e = cc
last_pending-IsPending now at (t ∷ ts) e =
    elim (later-one (is_pending t.state t.on t.fires_at now) (last_pending now ts) at e) [
      | inl q ↦ (t, Memᴰ.head refl, is_pending-IsPending now at t q)
      | inr q ↦ let (u, m, p) = last_pending-IsPending now at ts q in (u, Memᴰ.tail m, p)
    ]

later-left : (b : Option ℕ) (a : ℕ) → (v : ℕ) × (later (some a) b ≡ some v) × (a ≤ v)
later-left none a = (a, refl, omega arith)
later-left (some b) a = (max a b, refl, omega arith)

later-right : (a : Option ℕ) (b : ℕ) → (v : ℕ) × (later a (some b) ≡ some v) × (b ≤ v)
later-right none b = (b, refl, omega arith)
later-right (some a) b = (max a b, refl, omega arith)

-- None of them fires after it.
last_pending-covers :
    (now at : ℕ) (ts : List TriggerContent) (t : TriggerContent)
    → Memᴰ t ts
    → is_pending t.state t.on t.fires_at now ≡ some at
    → (v : ℕ) × (last_pending now ts ≡ some v) × (at ≤ v)
last_pending-covers now at [] t m e = elim m [ ]
last_pending-covers now at (u ∷ ts) t (Memᴰ.head q) e =
    rw (← q) (rw e (later-left (last_pending now ts) at))
last_pending-covers now at (u ∷ ts) t (Memᴰ.tail m) e =
    let (v, f, l) = last_pending-covers now at ts t m e in
    let (x, g, k) = later-right (is_pending u.state u.on u.fires_at now) v in
    rw f (x, g, omega (arith, l, k))

-- The end `u` is no earlier than that of a reason; none is the latest.
abbrev pub Covers : Option ℕ → Ground → Type 0
Covers none g = Unit
Covers (some u) (r, none) = ⊥
Covers (some u) (r, some v) = v ≤ u

abbrev one_if {ℓ} : {A : Type ℓ} → Bool → A → List A
one_if b x = if b then x ∷ [] else []

one_if-All {ℓ κ} :
    {A : Type ℓ} (P : A → Type κ) (b : Bool) (x : A) → (b ≡ true → P x) → All P (one_if b x)
one_if-All P true x h = (h refl, tt)
one_if-All P false x h = tt

mem-one_if {ℓ} : {A : Type ℓ} (b : Bool) (x : A) → b ≡ true → Memᴰ x (one_if b x)
mem-one_if true x e = Memᴰ.head refl
mem-one_if false x e = cc

module _ (item : ItemContent) (now : ℕ) (triggers : List TriggerContent) (horizon recent : ℕ)
    (frequent : Bool) (next : Option Occurrence) where
  abbrev IsOwn : Ground → Type 0
  IsOwn = IsGround item now triggers horizon recent frequent next

  abbrev planned : List Ground
  planned = plan_ground now horizon next

  abbrev reminded : List Ground
  reminded = pending_ground (last_pending now triggers)

  abbrev is_open : Bool
  is_open = is_task item.kind && str_eq item.state "open"

  abbrev tasked : List Ground
  tasked = one_if is_open (QuickReason.open_task, none)

  abbrev is_recent : Bool
  is_recent = ltb 0 recent && ltb now (item.mentioned_at + recent * day)

  abbrev mention : Ground
  mention = (QuickReason.mentioned, some (item.mentioned_at + recent * day))

  abbrev often : Ground
  often = (QuickReason.frequently_retrieved, some (now + max recent 1 * day))

  planned-All : (o : Option Occurrence) → next ≡ o → All IsOwn (plan_ground now horizon o)
  planned-All none e = tt
  planned-All (some (s, u)) e =
      one_if-All IsOwn (leb s (now + horizon * day) && ltb now u) (QuickReason.plan_within, some u)
        (λ y. (s, e, ground (arith, y), ground (arith, y)))

  reminded-All : (o : Option ℕ) → last_pending now triggers ≡ o → All IsOwn (pending_ground o)
  reminded-All none e = tt
  reminded-All (some at) e = (last_pending-IsPending now at triggers e, tt)

  pub grounds-All : All IsOwn (grounds item now triggers horizon recent frequent next)
  grounds-All =
      let mentioned = one_if is_recent mention in
      let rest = one_if frequent often in
      All-append IsOwn planned (reminded ++ (tasked ++ (mentioned ++ rest))) (planned-All next refl)
        (All-append IsOwn reminded (tasked ++ (mentioned ++ rest))
          (reminded-All (last_pending now triggers) refl)
          (All-append IsOwn tasked (mentioned ++ rest)
            (one_if-All IsOwn is_open (QuickReason.open_task, none)
              (λ y.
                let both = and-true (is_task item.kind) (str_eq item.state "open") y in
                (task_sound item.kind both.0, both.1)))
            (All-append IsOwn mentioned rest
              (one_if-All IsOwn is_recent mention
                (λ y. (ground (arith, y), refl, ground (arith, y))))
              (one_if-All IsOwn frequent often (λ y. (y, refl))))))

  mem-grounds-planned :
      (g : Ground)
      → Memᴰ g planned
      → Memᴰ g (grounds item now triggers horizon recent frequent next)
  mem-grounds-planned g m = Memᴰ.append_left _ m

  mem-grounds-reminded :
      (g : Ground)
      → Memᴰ g reminded
      → Memᴰ g (grounds item now triggers horizon recent frequent next)
  mem-grounds-reminded g m = Memᴰ.append_right planned (Memᴰ.append_left _ m)

  mem-grounds-tasked :
      (g : Ground) → Memᴰ g tasked → Memᴰ g (grounds item now triggers horizon recent frequent next)
  mem-grounds-tasked g m =
      Memᴰ.append_right planned (Memᴰ.append_right reminded (Memᴰ.append_left _ m))

  mem-grounds-mentioned :
      (g : Ground)
      → Memᴰ g (one_if is_recent mention)
      → Memᴰ g (grounds item now triggers horizon recent frequent next)
  mem-grounds-mentioned g m =
      Memᴰ.append_right planned
        (Memᴰ.append_right reminded (Memᴰ.append_right tasked (Memᴰ.append_left _ m)))

  mem-grounds-often :
      (g : Ground)
      → Memᴰ g (one_if frequent often)
      → Memᴰ g (grounds item now triggers horizon recent frequent next)
  mem-grounds-often g m = Memᴰ.append_right planned (
      Memᴰ.append_right reminded
        (Memᴰ.append_right tasked (Memᴰ.append_right (one_if is_recent mention) m)))

  -- A reason that holds is listed, or one of its kind with a later end is.
  abbrev pub IsListed : Ground → Type 0
  IsListed g =
      (u : Option ℕ) × Memᴰ (g.0, u) (grounds item now triggers horizon recent frequent next)
      × Covers u g

  pub IsGround-IsListed : (g : Ground) → IsOwn g → IsListed g
  IsGround-IsListed (QuickReason.plan_within, some u) (s, e, lo, hi) =
      let yes_ : (leb s (now + horizon * day) && ltb now u) ≡ true = ground (arith, lo, hi) in
      let m : Memᴰ (QuickReason.plan_within, some u) planned = rw (e, yes_) (Memᴰ.head refl) in
      (some u, mem-grounds-planned (QuickReason.plan_within, some u) m, omega arith)
  IsGround-IsListed (QuickReason.pending_reminder, some u) (t, m, p) =
      let (v, e, l) = last_pending-covers now u triggers t m (IsPending-is_pending now u t p) in
      let there : Memᴰ (QuickReason.pending_reminder, some v) reminded = rw e (Memᴰ.head refl) in
      (some v, mem-grounds-reminded (QuickReason.pending_reminder, some v) there, l)
  IsGround-IsListed (QuickReason.open_task, none) (k, s) =
      let yes_ : is_open ≡ true = rw (k, s) refl in
      (
        none,
        mem-grounds-tasked (QuickReason.open_task, none)
            (mem-one_if is_open (QuickReason.open_task, none) yes_),
        tt,
      )
  IsGround-IsListed (QuickReason.mentioned, some u) (p, e, l) =
      let yes_ : is_recent ≡ true = ground (arith, p, e, l) in
      (
        some (item.mentioned_at + recent * day),
        mem-grounds-mentioned mention (mem-one_if is_recent mention yes_),
        omega (arith, e),
      )
  IsGround-IsListed (QuickReason.frequently_retrieved, some u) (f, e) = (
    some (now + max recent 1 * day),
    mem-grounds-often often (mem-one_if frequent often f),
    omega (arith, e),
  )
  IsGround-IsListed (QuickReason.plan_within, none) b = absurd b
  IsGround-IsListed (QuickReason.pending_reminder, none) b = absurd b
  IsGround-IsListed (QuickReason.open_task, some u) b = absurd b
  IsGround-IsListed (QuickReason.mentioned, none) b = absurd b
  IsGround-IsListed (QuickReason.frequently_retrieved, none) b = absurd b
