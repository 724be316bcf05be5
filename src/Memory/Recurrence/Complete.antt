-- ===== src/Memory/Recurrence/Complete.antt =====
-- That `expand_rrule` of memory/recurrence.py leaves no time out.
use nd_mind.Base.{
  ℕ, zero, suc, ◌+◌, ◌≤◌, Bool, Bool-cases, true, false, Option, none, some, List, [], ◌∷◌, ◌≡◌,
  refl, inl, inr, arith, length, if◌then◌else◌, ◌==◌, String, ◌⊎◌, ap,
}
use nd_mind.Memory.Recurrence.{
  Clock, Expansion, Occurrence, RecurrenceRule, cons_if, expand_loop, expand_rrule, fuel_for,
  is_current, is_past, parse_rrule, ran, low,
}
use nd_mind.Memory.Recurrence.Window.{After, Before}
use mathlib.Core.List.{Memᴰ}

-- The moments of a rule, as `after` promises them: if there is one after `c`, it finds one, and no
-- later one than that.
abbrev pub Finds : RecurrenceRule → (ℕ → Bool) → Type 0
Finds r occurs =
    (c x : ℕ) (inc : Bool)
    → occurs x ≡ true
    → (if inc then c else suc c) ≤ x
    → (d : ℕ) × (r.after c inc ≡ some d) × (d ≤ x)

-- The local time `x` is regular: no local time before it is a later moment, as after a change that
-- skips an hour, and no moment before its own shows a later local time, as in an hour that is repeated.
pub record IsRegular (clock : Clock) (x : ℕ) : Type 0 where
  pub follows : (c : ℕ) → c ≤ x → clock.to_utc c ≤ clock.to_utc x
  pub shows : (u : ℕ) → u ≤ clock.to_utc x → clock.to_local u ≤ x

-- With no start the first occurrence is where the search begins.
abbrev pub NotBeforeFirst : Option ℕ → ℕ → ℕ → Type 0
NotBeforeFirst none first n = first ≤ n
NotBeforeFirst (some start) first n = Unit

-- The time is there, or there are as many others as there is room for.
abbrev pub Has : Occurrence → ℕ → List Occurrence → Type 0
Has o room out = Memᴰ o out ⊎ (length out ≡ room)

is_past-false : (end : Option ℕ) (b x : ℕ) → b ≤ x → Before end x → is_past end b ≡ false
is_past-false none b x h e = refl
is_past-false (some end) b x h e = ground arith

is_current-true : (start : Option ℕ) (n : ℕ) → After start n → is_current start n ≡ true
is_current-true none n e = refl
is_current-true (some start) n e = ground arith

cons_if-Has :
    (hit : Bool) (o p : Occurrence) (room : ℕ) (rest : Option (List Occurrence))
    (out : List Occurrence)
    → ((out' : List Occurrence) → rest ≡ some out' → Has o (if hit then room else suc room) out')
    → cons_if hit p rest ≡ some out
    → Has o (suc room) out
cons_if-Has hit o p room none out f e = cc
cons_if-Has true o p room (some out') out f e = elim (f out' refl) [
  | inl m ↦ let w : out ≡ p ∷ out' = cc in rw w (inl (Memᴰ.tail m))
  | inr l ↦ let w : out ≡ p ∷ out' = cc in rw w (inr (ap suc l))
]
cons_if-Has false o p room (some out') out f e = let w : out ≡ out' = cc in rw w (f out' refl)

cons_if-head :
    (hit : Bool) (p : Occurrence) (rest : Option (List Occurrence)) (out : List Occurrence)
    → hit ≡ true
    → cons_if hit p rest ≡ some out
    → Memᴰ p out
cons_if-head hit p none out h e = cc
cons_if-head false p (some xs) out h e = cc
cons_if-head true p (some xs) out h e = let w : out ≡ p ∷ xs = cc in rw w (Memᴰ.head refl)

module _ (r : RecurrenceRule) (to_utc : ℕ → ℕ) (len : ℕ) (start end : Option ℕ)
    (occurs : ℕ → Bool) where
  expand_loop-Has :
      Finds r occurs
      → (x : ℕ) → occurs x ≡ true
      → ((c : ℕ) → c ≤ x → to_utc c ≤ to_utc x)
      → Before end (to_utc x)
      → After start (to_utc x + len)
      → (fuel room c : ℕ) (out : List Occurrence) → c ≤ x
      → expand_loop r to_utc len start end fuel room (some c) ≡ some out
      → Has (to_utc x, to_utc x + len) room out
  unfolding expand_loop
  expand_loop-Has finds x o order b a zero room c out le e = cc
  expand_loop-Has finds x o order b a (suc fuel) zero c out le e =
      let w : out ≡ [] = cc in rw w (inr refl)
  expand_loop-Has finds x o order b a (suc fuel) (suc room) c out le e =
      let hit = is_current start (to_utc c + len) in
      let p = is_past-false end (to_utc c) (to_utc x) (order c le) b in
      let taken = rw p at e in
      let here : Occurrence = (to_utc c, to_utc c + len) in
      let rest =
        expand_loop r to_utc len start end fuel (if hit then room else suc room)
          (r.after c false) in
      let ih = expand_loop-Has finds x o order b a fuel (if hit then room else suc room) in
      elim (Bool-cases (c == x)) [
        | inl q ↦
            let w : x ≡ c = ground (arith, q) in
            let now : is_current start (to_utc c + len) ≡ true =
              rw (← w) (is_current-true start (to_utc x + len) a) in
            rw w (inl (cons_if-head hit here rest out now taken))
        | inr q ↦
            let found = finds c x false o (ground (arith, q, le)) in
            cons_if-Has hit (to_utc x, to_utc x + len) here room rest out
              (λ out' w. ih found.0 out' found.2 (rw found.1 at w)) taken
      ]

start_cursor-Has :
    (r : RecurrenceRule) (to_utc : ℕ → ℕ) (len : ℕ) (start end : Option ℕ) (occurs : ℕ → Bool)
    → Finds r occurs
    → (x : ℕ) → occurs x ≡ true
    → ((c : ℕ) → c ≤ x → to_utc c ≤ to_utc x)
    → Before end (to_utc x)
    → After start (to_utc x + len)
    → (fuel room from : ℕ) (out : List Occurrence) → from ≤ x
    → expand_loop r to_utc len start end fuel room (r.after from true) ≡ some out
    → Has (to_utc x, to_utc x + len) room out
start_cursor-Has r to_utc len start end occurs finds x o order b a fuel room from out le e =
    let found = finds from x true o le in
    expand_loop-Has r to_utc len start end occurs finds x o order b a fuel room found.0 out found.2
      (rw found.1 at e)

ran-times :
    (o : Option (List Occurrence)) (out : List Occurrence)
    → ran o ≡ Expansion.times out
    → o ≡ some out
ran-times none out e = cc
ran-times (some xs) out e = cc

low-before :
    (start : Option ℕ) (first len lo n : ℕ)
    → low start first len ≡ some lo
    → NotBeforeFirst start first n
    → After start (n + len)
    → lo ≤ n
low-before none first len lo n e f a = let q : first ≡ lo = cc in omega arith
low-before (some start) first len lo n e f a = ground arith

-- Where the rule finds its next moment, each moment of the rule whose time ends after the window's
-- start and begins before its end, also one that began before the start, is among the times that are
-- given, unless these are as many as the limit; its local time is regular, and with no start it is not
-- before the first occurrence.
pub expand_rrule-Has :
    (clock : Clock) (text : String) (first len : ℕ) (start end : Option ℕ) (limit : ℕ)
    (r : RecurrenceRule) (occurs : ℕ → Bool) (lo x : ℕ) (out : List Occurrence)
    → parse_rrule clock text (clock.to_local first) ≡ some r
    → low start first len ≡ some lo
    → Finds r occurs
    → IsRegular clock x
    → occurs x ≡ true
    → NotBeforeFirst start first (clock.to_utc x)
    → Before end (clock.to_utc x)
    → After start (clock.to_utc x + len)
    → expand_rrule clock text first len start end limit ≡ Expansion.times out
    → Has (clock.to_utc x, clock.to_utc x + len) limit out
unfolding expand_rrule
expand_rrule-Has clock text first len start end limit r occurs lo x out parsed low_at finds regular
      o nb b a e =
    let f = rw (parsed, low_at) at e in
    start_cursor-Has r clock.to_utc len start end occurs finds x o regular.follows b a
      (fuel_for start limit) limit (clock.to_local lo) out
      (regular.shows lo (low-before start first len lo (clock.to_utc x) low_at nb a))
      (ran-times
        (expand_loop r clock.to_utc len start end (fuel_for start limit) limit
          (r.after (clock.to_local lo) true))
        out f)
