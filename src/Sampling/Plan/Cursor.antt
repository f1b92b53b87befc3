-- ===== src/Sampling/Plan/Cursor.antt =====
-- How a plan moves the cursors of the tiers.
use aeo_geo_optimization.Common.{
  ℕ, flat_map, ◌≡◌, ◌≤◌, ◌+◌, ◌&&◌, ◌↔◌, Bool-cases, ap, sym, ◌++◌, keep, refl, ◌∙◌, Bool, true,
  false, ◌||◌, List, [], ◌∷◌, Option, none, some, arith, if◌then◌else◌, any, All, All-append,
  and_left, and_right, ◌⊎◌, inl, inr,
}
use aeo_geo_optimization.Common.Int.{ℤ, pos, negsuc, pos_part, neg_part, leb_ℤ, ◌-ℤ◌}
use aeo_geo_optimization.Common.OrderedMap.{get, set, push, group_from}
use aeo_geo_optimization.Domain.{
  DensityTier, core, secondary, longtail, tier_eq, tier_eq_sound, is_baseline, Question,
}
use aeo_geo_optimization.Sampling.Density.{cycle_period_by_tier}
use aeo_geo_optimization.Sampling.Rotation.{RotationState}
use aeo_geo_optimization.Sampling.Plan.{
  Runtime, PlanInput, state_of, tier_due, tiers_scheduled, questions_by_tier, scheduled_of_tier,
  advance_tiers, build_plan,
}

get-set :
    (k j : DensityTier) (v : RotationState) (m : List (DensityTier × RotationState))
    → get tier_eq j (set tier_eq k v m) ≡ (if tier_eq k j then some v else get tier_eq j m)
unfolding get set
get-set k j v [] = refl
get-set k j v ((i, w) ∷ m) = ground (arith, get-set k j v m)

-- The cursor of a tier with the current cycle in it.
abbrev pub advanced : PlanInput → DensityTier → RotationState
advanced input tier = record (state_of input tier) {
  last_cycle_index = pos input.current_cycle_index;
}

get-advance_tiers :
    (input : PlanInput) (tiers : List DensityTier) (m : List (DensityTier × RotationState))
    (t : DensityTier)
    → get tier_eq t (advance_tiers input tiers m)
      ≡ (if any (λ s. tier_eq s t) tiers then some (advanced input t) else get tier_eq t m)
unfolding advance_tiers
get-advance_tiers input [] m t = refl
get-advance_tiers input (s ∷ tiers) m t =
    let next = set tier_eq s (advanced input s) m in
    get-advance_tiers input tiers next t
    ∙ first_or_later s t (any (λ r. tier_eq r t) tiers) (get-set s t (advanced input s) m)
  where
    first_or_later :
        (s t : DensityTier) (b : Bool) {found : Option RotationState}
        → found ≡ (if tier_eq s t then some (advanced input s) else get tier_eq t m)
        → (if b then some (advanced input t) else found)
          ≡ (if tier_eq s t || b then some (advanced input t) else get tier_eq t m)
    first_or_later core core b e = ground arith
    first_or_later secondary secondary b e = ground arith
    first_or_later longtail longtail b e = ground arith
    first_or_later core secondary b e = ground arith
    first_or_later core longtail b e = ground arith
    first_or_later secondary core b e = ground arith
    first_or_later secondary longtail b e = ground arith
    first_or_later longtail core b e = ground arith
    first_or_later longtail secondary b e = ground arith

or_nothing : (a : Bool) → (a || false) ≡ a
or_nothing a = ground arith

or_twice : (a b : Bool) → (a || b) ≡ (a || (a || b))
or_twice a b = ground arith

or_swap : (a b c : Bool) → (a || (b || c)) ≡ (b || (a || c))
or_swap a b c = ground arith

or_swap_assoc : (a b c : Bool) → (a || (b || c)) ≡ ((b || a) || c)
or_swap_assoc a b c = ground arith

-- A map of groups has a key if it was there or is that of a value.
push-has_key :
    (t k : DensityTier) (q : Question) (m : List (DensityTier × List Question))
    → any (λ g. tier_eq g.0 t) (push tier_eq k q m) ≡ (tier_eq k t || any (λ g. tier_eq g.0 t) m)
unfolding push
push-has_key t k q [] = refl
push-has_key t k q ((j, qs) ∷ m) =
    let ih = push-has_key t k q m in
    elim (Bool-cases (tier_eq j k)) [
      | inl same ↦ rw same (rw (tier_eq_sound j k same) (or_twice (tier_eq k t) _))
      | inr other ↦ rw (other, ih) (or_swap (tier_eq j t) (tier_eq k t) _)
    ]

group_from-has_key :
    (t : DensityTier) (qs : List Question) (m : List (DensityTier × List Question))
    → any (λ g. tier_eq g.0 t) (group_from tier_eq (λ (q : Question). q.density_tier) qs m)
      ≡ (any (λ (q : Question). tier_eq q.density_tier t) qs || any (λ g. tier_eq g.0 t) m)
unfolding group_from
group_from-has_key t [] m = refl
group_from-has_key t (q ∷ qs) m =
    group_from-has_key t qs (push tier_eq q.density_tier q m)
    ∙ rw (push-has_key t q.density_tier q m) (
        or_swap_assoc (any (λ (r : Question). tier_eq r.density_tier t) qs)
          (tier_eq q.density_tier t) _)

-- The cycle that the cursor of a tier names, -1 where it has none.
abbrev pub last_named : Option RotationState → ℤ
last_named none = negsuc 0
last_named (some s) = s.last_cycle_index

-- The tier moves: the run is an operating one, an active question is of the tier, and the tier's period
-- is over since the last cycle that its cursor names.
pub record Moves (input : PlanInput) (t : DensityTier) : Type 0 where
  pub operating : is_baseline input.kind ≡ false
  pub asked : any (λ (q : Question). q.active && tier_eq q.density_tier t) input.questions ≡ true
  pub over :
      pos_part (last_named (get tier_eq t input.rotation_states)) + cycle_period_by_tier t
      ≤ input.current_cycle_index + neg_part (last_named (get tier_eq t input.rotation_states))

over_iff :
    (now period : ℕ) (last : ℤ)
    → (leb_ℤ (pos period) (pos now -ℤ last) ≡ true) ↔ (pos_part last + period ≤ now + neg_part last)
unfolding ◌-ℤ◌
over_iff now period (pos n) = ground arith
over_iff now period (negsuc n) = ground arith

state_of-last :
    (input : PlanInput) (t : DensityTier)
    → (state_of input t).last_cycle_index ≡ last_named (get tier_eq t input.rotation_states)
state_of-last input t = last_of (get tier_eq t input.rotation_states)
  where
    last_of :
        (found : Option RotationState)
        → (elim found as (λ _. RotationState) [
          | some s ↦ s
          | none ↦ record {
            customer_id = input.customer_id;
            density_tier = t;
            last_cycle_index = negsuc 0;
          }
        ]).last_cycle_index
          ≡ last_named found
    last_of none = refl
    last_of (some s) = refl

tier_due_iff :
    (input : PlanInput) (t : DensityTier)
    → (tier_due input t ≡ true) ↔ (
        pos_part (last_named (get tier_eq t input.rotation_states)) + cycle_period_by_tier t
        ≤ input.current_cycle_index + neg_part (last_named (get tier_eq t input.rotation_states)))
tier_due_iff input t = rw (← state_of-last input t) (
    over_iff input.current_cycle_index (cycle_period_by_tier t) (state_of input t).last_cycle_index)

-- One more round, which adds its tier if that is due.
one_more :
    (due_j : Bool) (j t : DensityTier) (rest : List DensityTier) (asked due_t : Bool)
    → (tier_eq j t ≡ true → due_j ≡ due_t)
    → any (λ s. tier_eq s t) rest ≡ (asked && due_t)
    → any (λ s. tier_eq s t) ((if due_j then j ∷ [] else []) ++ rest)
      ≡ ((tier_eq j t || asked) && due_t)
one_more true j t rest asked due_t same h = elim (Bool-cases (tier_eq j t)) [
  | inl e ↦ rw (e, sym (same e)) refl
  | inr e ↦ rw (e, h) refl
]
one_more false j t rest asked due_t same h = elim (Bool-cases (tier_eq j t)) [
  | inl e ↦ rw (e, h, sym (same e)) (ground arith)
  | inr e ↦ rw (e, h) refl
]

scheduled-any :
    (input : PlanInput) (t : DensityTier) (groups : List (DensityTier × List Question))
    → is_baseline input.kind ≡ false
    → any (λ s. tier_eq s t) (flat_map (scheduled_of_tier input) groups)
      ≡ (any (λ g. tier_eq g.0 t) groups && tier_due input t)
scheduled-any input t [] oper = refl
scheduled-any input t ((j, qs) ∷ groups) oper =
    let ih = scheduled-any input t groups oper in
    rw oper (
      one_more (tier_due input j) j t _ (any (λ g. tier_eq g.0 t) groups) (tier_due input t)
        (λ e. ap (tier_due input) (tier_eq_sound j t e)) ih)

scheduled-baseline :
    (input : PlanInput) (groups : List (DensityTier × List Question))
    → is_baseline input.kind ≡ true
    → flat_map (scheduled_of_tier input) groups ≡ []
scheduled-baseline input [] base = refl
scheduled-baseline input ((j, qs) ∷ groups) base =
    rw (base, scheduled-baseline input groups base) refl

any-keep_active :
    (t : DensityTier) (qs : List Question)
    → any (λ (q : Question). tier_eq q.density_tier t) (keep (λ (q : Question). q.active) qs)
      ≡ any (λ (q : Question). q.active && tier_eq q.density_tier t) qs
any-keep_active t [] = refl
any-keep_active t (q ∷ qs) = elim (Bool-cases q.active) [
  | inl active ↦ rw (active, any-keep_active t qs) refl
  | inr idle ↦ rw (idle, any-keep_active t qs) refl
]

tiers_scheduled-any :
    (input : PlanInput) (t : DensityTier)
    → is_baseline input.kind ≡ false
    → any (λ s. tier_eq s t) (tiers_scheduled input) ≡ (
        any (λ (q : Question). q.active && tier_eq q.density_tier t) input.questions
        && tier_due input t)
unfolding tiers_scheduled questions_by_tier
tiers_scheduled-any input t oper =
    scheduled-any input t (questions_by_tier input.questions) oper
    ∙ ap (λ b. b && tier_due input t)
        (group_from-has_key t (keep (λ (q : Question). q.active) input.questions) []
          ∙ or_nothing _
          ∙ any-keep_active t input.questions)

tiers_scheduled-Moves :
    (input : PlanInput) (t : DensityTier)
    → (any (λ s. tier_eq s t) (tiers_scheduled input) ≡ true) ↔ Moves input t
unfolding tiers_scheduled
tiers_scheduled-Moves input t = elim (Bool-cases (is_baseline input.kind)) [
  | inl base ↦
      let nothing = scheduled-baseline input (questions_by_tier input.questions) base in
      (
        (λ h. elim (false_true (rw nothing at h)) [ ]),
        (λ m. let oper = m.operating in elim (false_true (sym oper ∙ base)) [ ]),
      )
  | inr oper ↦
      let same = tiers_scheduled-any input t oper in
      let due = tier_due_iff input t in
      (
        (λ h.
            let both = sym same ∙ h in
            record {
              operating = oper;
              asked = and_left _ _ both;
              over = due.0 (and_right _ _ both);
            }),
        (λ m. same ∙ both_true _ _ m.asked (due.1 m.over)),
      )
]
  where
    false_true : false ≡ true → ⊥
    false_true h = ground arith

    both_true : (a b : Bool) → a ≡ true → b ≡ true → (a && b) ≡ true
    both_true a b p q = ground arith

-- What is found where a test decides.
found_by :
    {A M : Type 0} (a : A) (found : Option A) (b : Bool)
    → found ≡ (if b then some a else none)
    → (b ≡ true) ↔ M
    → ((found ≡ some a) ↔ M) × ((found ≡ some a) ⊎ (found ≡ none))
found_by a found true e iff = (((λ h. iff.0 refl), (λ m. e)), inl e)
found_by a found false e iff =
    (((λ h. elim (none_some (sym e ∙ h)) [ ]), (λ m. elim (false_true (iff.1 m)) [ ])), inr e)
  where
    none_some : {B : Type 0} {b : B} → none ≡ some b → ⊥
    none_some h = ground arith

    false_true : false ≡ true → ⊥
    false_true h = ground arith

-- An operating run moves the cursor of a tier to the current cycle exactly if it has an active question
-- of the tier and the tier's period is over since the cycle that its cursor names (-1 without a cursor);
-- it gives no cursor for any other tier, and a baseline gives none at all.
pub next_rotation_states_lem :
    (rt : Runtime) (input : PlanInput) (t : DensityTier)
    → ((get tier_eq t (build_plan rt input).next_rotation_states ≡ some (advanced input t))
        ↔ Moves input t)
      × ((get tier_eq t (build_plan rt input).next_rotation_states ≡ some (advanced input t))
          ⊎ (get tier_eq t (build_plan rt input).next_rotation_states ≡ none))
unfolding build_plan get
next_rotation_states_lem rt input t =
    found_by (advanced input t) _ _ (get-advance_tiers input (tiers_scheduled input) [] t)
      (tiers_scheduled-Moves input t)

abbrev pub StartsAt : PlanInput → DensityTier → Type 0
StartsAt input tier = leb_ℤ (negsuc 0) (state_of input tier).last_cycle_index ≡ true

idle_at_zero :
    (input : PlanInput) (tier : DensityTier)
    → input.current_cycle_index ≡ 0
    → StartsAt input tier
    → (tier ≡ core) ⊎ (tier_due input tier ≡ false)
unfolding ◌-ℤ◌
idle_at_zero input core h s = inl refl
idle_at_zero input secondary h s = inr (ground arith)
idle_at_zero input longtail h s = inr (ground arith)

zero_of_tier :
    (input : PlanInput) (g : DensityTier × List Question)
    → input.current_cycle_index ≡ 0
    → StartsAt input g.0
    → All (λ tier. tier ≡ core) (scheduled_of_tier input g)
zero_of_tier input (tier, qs) zero_index starts = elim (Bool-cases (is_baseline input.kind)) [
  | inl base ↦ rw base tt
  | inr oper ↦ elim (idle_at_zero input tier zero_index starts) [
    | inl same ↦ elim (Bool-cases (tier_due input tier)) [
      | inl due ↦ rw (oper, due) (same, tt)
      | inr idle ↦ rw (oper, idle) tt
    ]
    | inr idle ↦ rw (oper, idle) tt
  ]
]

-- A run at cycle index 0 schedules no tier but the core one, however the cursors stand: they are -1, for a
-- tier that never ran, or more.
pub cycle_zero_core_only :
    (input : PlanInput)
    → input.current_cycle_index ≡ 0
    → ((tier : DensityTier) → StartsAt input tier)
    → All (λ tier. tier ≡ core) (tiers_scheduled input)
unfolding tiers_scheduled
cycle_zero_core_only input zero_index starts = all_core (questions_by_tier input.questions)
  where
    all_core :
        (groups : List (DensityTier × List Question))
        → All (λ tier. tier ≡ core) (flat_map (scheduled_of_tier input) groups)
    all_core [] = tt
    all_core (g ∷ groups) =
        All-append _ _ _ (zero_of_tier input g zero_index (starts g.0)) (all_core groups)
