-- ===== src/Metering/AppBlock.antt =====
-- What `app_block` of metering/gate.py has found where it lets a turn pass.
use nd_mind.Base.{
  ℕ, ◌+◌, ◌<◌, ◌≤◌, suc, Bool, true, false, none, some, List, [], ◌∷◌, ◌≡◌, refl, arith, Bool-cases,
  Option-cases, inl, inr, get_or, ap, ltb, length, ◌⊎◌, ◌||◌,
}
use nd_mind.Base.Dict.{lookup}
use nd_mind.Metering.Store.{SpendStore, SpendTotals}
use nd_mind.Metering.Store.Calls.{Clocks, Gate, totals_of, totals}
use nd_mind.Metering.Limits.{
  Block, BlockReason, SpendLimits, plain, cap_block, providers_of, count_used_up,
}
use nd_mind.Metering.Gate.{app_block, fresh, kill_switch_on, used_up, credit_used_up}

-- Some element satisfies `P`.
abbrev pub Any : (ℕ → Type 0) → List ℕ → Type 0
Any P [] = ⊥
Any P (x ∷ xs) = P x ⊎ Any P xs

-- The kill switch as the gate last read it, less than `flag_ttl` ago, and else as it stands.
abbrev pub switch : SpendLimits → Gate → ℕ → Bool
switch limits g now = get_or (fresh g.flag now) (get_or g.store.kill limits.kill_switch)

-- At one of the check's own readings of the clock, from number `from` to before `until`, the provider is
-- neither marked nor counted out of credit.
abbrev pub HasCredit : Clocks → SpendLimits → ℕ → ℕ → SpendStore → SpendTotals → ℕ → Type 0
HasCredit clocks limits from until s t p =
    (n : ℕ) × (from ≤ n)
    × (n < until)
    × (get_or (lookup p s.credit_out) 0 ≤ clocks.monotonic n)
    × (count_used_up limits p t ≡ false)

-- What holds where the app lets a turn start: `t` are the counters at the moment of the check.
pub record IsOpen (clocks : Clocks) (limits : SpendLimits) (g : Gate) (t : SpendTotals)
    : Type 0 where
  pub reachable : g.store.fail ≡ false
  pub switched_on : switch limits g (clocks.monotonic g.readings) ≡ false
  pub day : t.day < limits.daily_usd
  pub month : t.month < limits.monthly_usd
  pub credit :
      (providers_of limits ≡ [])
      ⊎ Any
          (HasCredit clocks limits
            (g.readings + 2)
            (g.readings + 2 + length (providers_of limits))
            g.store
            t)
          (providers_of limits)

module _ (clocks : Clocks) (limits : SpendLimits) where
  pub app_block-closed :
      (g : Gate)
      → g.store.fail ≡ true
      → (b : Block) × ((app_block clocks limits g).0 ≡ some (some b))
  unfolding app_block kill_switch_on totals
  app_block-closed g down = elim (Option-cases (fresh g.flag (clocks.monotonic g.readings))) [
    | inl e ↦ rw (e, down) (plain BlockReason.unavailable, refl)
    | inr (true, e) ↦ rw e (plain BlockReason.kill_switch, refl)
    | inr (false, e) ↦ rw (e, down) (plain BlockReason.unavailable, refl)
  ]

  abbrev ticked : Gate → Gate
  ticked g = record g { readings = suc g.readings }

  kill_switch_on-reads :
      (g : Gate)
      → g.store.fail ≡ false
      → (h : Gate) × (kill_switch_on clocks limits g
          ≡ (some (switch limits g (clocks.monotonic g.readings)), h))
        × (h.store ≡ g.store)
        × (h.readings ≡ suc g.readings)
  unfolding kill_switch_on
  kill_switch_on-reads g up = elim (Option-cases (fresh g.flag (clocks.monotonic g.readings))) [
    | inl e ↦ rw (e, up) (_, refl, refl, refl)
    | inr (b, e) ↦ rw e (_, refl, refl, refl)
  ]

  abbrev is_out : SpendStore → SpendTotals → ℕ → ℕ → Bool
  is_out s t p n =
      ltb (clocks.monotonic n) (get_or (lookup p s.credit_out) 0) || count_used_up limits p t

  credit_used_up-reads :
      (p : ℕ) (t : SpendTotals) (g : Gate)
      → g.store.fail ≡ false
      → credit_used_up clocks limits p t g ≡ (some (is_out g.store t p g.readings), ticked g)
  credit_used_up-reads p t g up =
      elim (Bool-cases
        (ltb (clocks.monotonic g.readings) (get_or (lookup p g.store.credit_out) 0))) [
          | inl e ↦ rw (up, e) refl
          | inr e ↦ rw (up, e) refl
        ]

  has_credit :
      (from until : ℕ) (s : SpendStore) (t : SpendTotals) (p n : ℕ)
      → from ≤ n
      → n < until
      → is_out s t p n ≡ false
      → HasCredit clocks limits from until s t p
  has_credit from until s t p n lo hi e = (n, lo, hi, ground arith, ground arith)

  all_or :
      (from until p : ℕ) (t : SpendTotals) (ps out : List ℕ) (s : SpendStore)
      → (length out ≡ length ps) ⊎ Any (HasCredit clocks limits from until s t) ps
      → (suc (length out) ≡ suc (length ps))
        ⊎ (HasCredit clocks limits from until s t p
            ⊎ Any (HasCredit clocks limits from until s t) ps)
  all_or from until p t ps out s (inl e) = inl (ap suc e)
  all_or from until p t ps out s (inr h) = inr (inr h)

  -- Either every provider is out of credit, or one that is not is found.
  used_up-reads :
      (from until : ℕ) (ps : List ℕ) (t : SpendTotals) (g : Gate)
      → g.store.fail ≡ false
      → from ≤ g.readings
      → g.readings + length ps ≤ until
      → (out : List ℕ) × ((used_up clocks limits ps t g).0 ≡ some out)
        × ((length out ≡ length ps) ⊎ Any (HasCredit clocks limits from until g.store t) ps)
  unfolding used_up
  used_up-reads from until [] t g up lo hi = ([], refl, inl refl)
  used_up-reads from until (p ∷ ps) t g up lo hi =
      let rest = used_up-reads from until ps t (ticked g) up (omega arith) (omega arith) in
      elim (Bool-cases (is_out g.store t p g.readings)) [
        | inl e ↦
            rw (credit_used_up-reads p t g up, rest.1, e)
              (p ∷ rest.0, refl, all_or from until p t ps rest.0 g.store rest.2)
        | inr e ↦
            rw (credit_used_up-reads p t g up, rest.1, e)
              (
                rest.0,
                refl,
                inr (inl (has_credit from until g.store t p g.readings lo (omega arith) e)),
              )
      ]

  cap_block-open :
      (t : SpendTotals) (out : List ℕ)
      → cap_block limits t out ≡ none
      → (t.day < limits.daily_usd)
        × (t.month < limits.monthly_usd)
        × ((length out ≡ length (providers_of limits)) → length (providers_of limits) ≡ 0)
  unfolding cap_block
  cap_block-open t out e = (ground arith, ground arith, λ q. ground arith)

  totals-reads :
      (at : ℕ) (g : Gate) → g.store.fail ≡ false → totals at g ≡ (some (totals_of at g.store), g)
  unfolding totals
  totals-reads at g up = rw up refl

  app_block-caps :
      (g : Gate)
      → g.store.fail ≡ false
      → switch limits g (clocks.monotonic g.readings) ≡ false
      → (out : List ℕ) × ((app_block clocks limits g).0
          ≡ some (cap_block limits (totals_of (clocks.wall (suc g.readings)) g.store) out))
        × ((length out ≡ length (providers_of limits))
            ⊎ Any
                (HasCredit clocks limits
                  (g.readings + 2)
                  (g.readings + 2 + length (providers_of limits))
                  g.store
                  (totals_of (clocks.wall (suc g.readings)) g.store))
                (providers_of limits))
  unfolding app_block
  app_block-caps g up off =
      let k = kill_switch_on-reads g up in
      let u =
        used_up-reads (g.readings + 2) (g.readings + 2 + length (providers_of limits))
          (providers_of limits) (totals_of (clocks.wall (suc g.readings)) g.store)
          (record k.0 { store = g.store; readings = suc (suc g.readings) }) up (omega arith)
          (omega arith) in
      rw
        (
          k.1,
          off,
          k.2,
          k.3,
          totals-reads (clocks.wall (suc g.readings))
              (record k.0 { store = g.store; readings = suc (suc g.readings) }) up,
          u.1,
        )
        (u.0, refl, u.2)

  app_block-switched :
      (g : Gate)
      → g.store.fail ≡ false
      → switch limits g (clocks.monotonic g.readings) ≡ true
      → (app_block clocks limits g).0 ≡ some (some (plain BlockReason.kill_switch))
  unfolding app_block
  app_block-switched g up on_ = let k = kill_switch_on-reads g up in rw (k.1, on_) refl

  no_providers : (ps : List ℕ) → length ps ≡ 0 → ps ≡ []
  no_providers [] e = refl
  no_providers (p ∷ ps) e = cc

  credit_left :
      (P : ℕ → Type 0) (out : List ℕ)
      → (length out ≡ length (providers_of limits)) ⊎ Any P (providers_of limits)
      → ((length out ≡ length (providers_of limits)) → length (providers_of limits) ≡ 0)
      → (providers_of limits ≡ []) ⊎ Any P (providers_of limits)
  credit_left P out (inl q) f = inl (no_providers (providers_of limits) (f q))
  credit_left P out (inr h) f = inr h

  IsOpen-caps :
      (g : Gate) (out : List ℕ)
      → g.store.fail ≡ false
      → switch limits g (clocks.monotonic g.readings) ≡ false
      → (length out ≡ length (providers_of limits))
        ⊎ Any
            (HasCredit clocks limits
              (g.readings + 2)
              (g.readings + 2 + length (providers_of limits))
              g.store
              (totals_of (clocks.wall (suc g.readings)) g.store))
            (providers_of limits)
      → cap_block limits (totals_of (clocks.wall (suc g.readings)) g.store) out ≡ none
      → IsOpen clocks limits g (totals_of (clocks.wall (suc g.readings)) g.store)
  IsOpen-caps g out up off all_ e =
      let o = cap_block-open (totals_of (clocks.wall (suc g.readings)) g.store) out e in
      record {
        reachable = up;
        switched_on = off;
        day = o.0;
        month = o.1;
        credit =
            credit_left
              (HasCredit clocks limits (g.readings + 2)
                (g.readings + 2 + length (providers_of limits)) g.store
                (totals_of (clocks.wall (suc g.readings)) g.store))
              out all_ o.2;
      }

  pub app_block-IsOpen :
      (g : Gate)
      → (app_block clocks limits g).0 ≡ some none
      → IsOpen clocks limits g (totals_of (clocks.wall (suc g.readings)) g.store)
  app_block-IsOpen g e = elim (Bool-cases g.store.fail) [
    | inl down ↦ let b = app_block-closed g down in cc
    | inr up ↦ elim (Bool-cases (switch limits g (clocks.monotonic g.readings))) [
      | inl on_ ↦ let s = app_block-switched g up on_ in cc
      | inr off ↦
          let c = app_block-caps g up off in IsOpen-caps g c.0 up off c.2 (let q = c.1 in cc)
    ]
  ]
