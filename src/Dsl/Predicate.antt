-- ===== src/Dsl/Predicate.antt =====
-- What `dsl_evaluate` decides of a predicate: a disjunction of conjunctions.
use libxdxgpu_container.Base.{
  ℕ, zero, suc, ◌≡◌, ◌⊎◌, refl, ap, Bool, true, false, ◌&&◌, ◌||◌, List, [], ◌∷◌, if◌then◌else◌,
  Option, some, inl, inr, Bool-cases,
}
use libxdxgpu_container.Base.Int.{ℤ, pos, negsuc, ℤ-cases}
use libxdxgpu_container.Error.{ok, err, setx}
use libxdxgpu_container.Libc.{Bytes, codes, tokens}
use libxdxgpu_container.Dsl.{
  DslRule, stopped, finished, evaluate_rule, evaluate_group, evaluate_groups, unsatisfied,
  dsl_evaluate,
}

abbrev pub is_valid : ℤ → Bool
is_valid (pos n) = true
is_valid (negsuc n) = false

abbrev pub is_met : ℤ → Bool
is_met (pos zero) = false
is_met (pos (suc n)) = true
is_met (negsuc n) = false

-- The parts of a conjunction.
abbrev pub parts : Bytes → List Bytes
parts group = tokens (codes ",") group

-- Every part that is not empty can be evaluated.
abbrev pub all_valid : (Bytes → ℤ) → List Bytes → Bool
all_valid eval [] = true
all_valid eval ([] ∷ ps) = all_valid eval ps
all_valid eval ((c ∷ p) ∷ ps) = is_valid (eval (c ∷ p)) && all_valid eval ps

-- Every part that is not empty holds.
abbrev pub all_met : (Bytes → ℤ) → List Bytes → Bool
all_met eval [] = true
all_met eval ([] ∷ ps) = all_met eval ps
all_met eval ((c ∷ p) ∷ ps) = is_met (eval (c ∷ p)) && all_met eval ps

-- Every part is empty, as in ",".
abbrev pub is_vacuous : List Bytes → Bool
is_vacuous [] = true
is_vacuous ([] ∷ ps) = is_vacuous ps
is_vacuous ((c ∷ p) ∷ ps) = false

-- Every group that is not empty has a part that is not empty, and valid parts only.
abbrev pub WellFormed : (Bytes → ℤ) → List Bytes → Type 0
WellFormed eval [] = Unit
WellFormed eval ([] ∷ gs) = WellFormed eval gs
WellFormed eval ((c ∷ g) ∷ gs) =
    (is_vacuous (parts (c ∷ g)) ≡ false)
    × (all_valid eval (parts (c ∷ g)) ≡ true)
    × WellFormed eval gs

-- Some group that is not empty holds.
abbrev pub any_met : (Bytes → ℤ) → List Bytes → Bool
any_met eval [] = false
any_met eval ([] ∷ gs) = any_met eval gs
any_met eval ((c ∷ g) ∷ gs) = all_met eval (parts (c ∷ g)) || any_met eval gs

group_met :
    (eval : Bytes → ℤ) (ps : List Bytes) (n : ℕ)
    → all_met eval ps ≡ true
    → (k : ℕ) × (evaluate_group eval (pos (suc n)) ps ≡ finished (pos (suc k)))
unfolding evaluate_group
group_met eval [] n h = (n, refl)
group_met eval ([] ∷ ps) n h = group_met eval ps n h
group_met eval ((c ∷ p) ∷ ps) n h = elim (ℤ-cases (eval (c ∷ p))) [
  | inl e ↦ cc (rw e at h)
  | inr (inl (v, e)) ↦ rw (e, evaluate_group) (group_met eval ps v (rw e at h))
  | inr (inr (v, e)) ↦ cc (rw e at h)
]

group_met_any :
    (eval : Bytes → ℤ) (ps : List Bytes) (ret : ℤ)
    → is_vacuous ps ≡ false
    → all_met eval ps ≡ true
    → (k : ℕ) × (evaluate_group eval ret ps ≡ finished (pos (suc k)))
unfolding evaluate_group
group_met_any eval [] ret n h = cc
group_met_any eval ([] ∷ ps) ret n h = group_met_any eval ps ret n h
group_met_any eval ((c ∷ p) ∷ ps) ret n h = elim (ℤ-cases (eval (c ∷ p))) [
  | inl e ↦ cc (rw e at h)
  | inr (inl (v, e)) ↦ rw (e, evaluate_group) (group_met eval ps v (rw e at h))
  | inr (inr (v, e)) ↦ cc (rw e at h)
]

group_unmet :
    (eval : Bytes → ℤ) (ps : List Bytes) (ret : ℤ)
    → all_valid eval ps ≡ true
    → all_met eval ps ≡ false
    → evaluate_group eval ret ps ≡ stopped (pos 0)
unfolding evaluate_group
group_unmet eval [] ret v h = cc
group_unmet eval ([] ∷ ps) ret v h = group_unmet eval ps ret v h
group_unmet eval ((c ∷ p) ∷ ps) ret v h = elim (ℤ-cases (eval (c ∷ p))) [
  | inl e ↦ rw (e, evaluate_group) refl
  | inr (inl (k, e)) ↦
      rw (e, evaluate_group) (group_unmet eval ps (pos (suc k)) (rw e at v) (rw e at h))
  | inr (inr (k, e)) ↦ cc (rw e at v)
]

vacuous_group :
    (eval : Bytes → ℤ) (ps : List Bytes) (ret : ℤ)
    → is_vacuous ps ≡ true
    → evaluate_group eval ret ps ≡ finished ret
unfolding evaluate_group
vacuous_group eval [] ret h = refl
vacuous_group eval ([] ∷ ps) ret h = vacuous_group eval ps ret h
vacuous_group eval ((c ∷ p) ∷ ps) ret h = cc

-- The value of `ret` behind the loop.
abbrev Decides : (accepted : Bool) → ℤ → Option ℤ → Type 0
Decides true ret o = (k : ℕ) × (o ≡ some (pos (suc k)))
Decides false ret o = o ≡ some ret

-- There is no group that is not empty.
abbrev pub is_blank : List Bytes → Bool
is_blank [] = true
is_blank ([] ∷ gs) = is_blank gs
is_blank ((c ∷ g) ∷ gs) = false

blank_groups :
    (eval : Bytes → ℤ) (gs : List Bytes) (ret : ℤ)
    → is_blank gs ≡ true
    → (evaluate_groups eval ret gs ≡ some ret) × (any_met eval gs ≡ false)
unfolding evaluate_groups
blank_groups eval [] ret h = (refl, refl)
blank_groups eval ([] ∷ gs) ret h = blank_groups eval gs ret h
blank_groups eval ((c ∷ g) ∷ gs) ret h = cc

-- The first group that counts does not read the initial value of `ret`.
groups_decide :
    (eval : Bytes → ℤ) (gs : List Bytes) (ret : ℤ)
    → (ret ≡ pos 0) ⊎ (is_blank gs ≡ false)
    → WellFormed eval gs
    → Decides (any_met eval gs) (pos 0) (evaluate_groups eval ret gs)
unfolding evaluate_groups
groups_decide eval [] ret (inl z) w = ap some z
groups_decide eval [] ret (inr b) w = cc
groups_decide eval ([] ∷ gs) ret start w = groups_decide eval gs ret start w
groups_decide eval ((c ∷ g) ∷ gs) ret start (n, v, w) =
    elim (Bool-cases (all_met eval (parts (c ∷ g)))) [
      | inl m ↦
          let (k, e) = group_met_any eval (parts (c ∷ g)) ret n m in
          rw (m, e, evaluate_groups) (k, refl)
      | inr m ↦
          rw (m, group_unmet eval (parts (c ∷ g)) ret v m, evaluate_groups)
            (groups_decide eval gs (pos 0) (inl refl) w)
    ]

abbrev pub words : Bytes → List Bytes
words predicate = tokens (codes " ") predicate

abbrev pub eval_by : List DslRule → Bytes → ℤ
eval_by rules expr = evaluate_rule expr rules

-- Where each group has a part that is not empty and only parts that can be evaluated, the predicate
-- is accepted exactly if it has no group, or some group whose parts all hold; otherwise the error
-- says that it is unsatisfied.
pub dsl_evaluate-any_met :
    (predicate : Bytes) (rules : List DslRule)
    → WellFormed (eval_by rules) (words predicate)
    → dsl_evaluate predicate rules ≡ (
        if is_blank (words predicate) || any_met (eval_by rules) (words predicate)
        then ok tt
        else err (setx (unsatisfied predicate)))
unfolding dsl_evaluate
dsl_evaluate-any_met predicate rules w = elim (Bool-cases (is_blank (words predicate))) [
  | inl b ↦ rw (b, (blank_groups (eval_by rules) (words predicate) (pos 1) b).0) refl
  | inr b ↦
      let decided = groups_decide (eval_by rules) (words predicate) (pos 1) (inr b) w in
      elim (Bool-cases (any_met (eval_by rules) (words predicate))) [
        | inl m ↦ let (k, e) = rw m at decided in rw (b, m, e) refl
        | inr m ↦ rw (b, m, rw m at decided) refl
      ]
]

-- A group of empty parts only, such as ",", ends the search: behind a group that does not hold, the
-- predicate is refused, whatever groups follow.
pub evaluate_groups-vacuous :
    (eval : Bytes → ℤ) (c d : ℕ) (g h : Bytes) (gs : List Bytes) (ret : ℤ)
    → all_valid eval (parts (c ∷ g)) ≡ true
    → all_met eval (parts (c ∷ g)) ≡ false
    → is_vacuous (parts (d ∷ h)) ≡ true
    → evaluate_groups eval ret ((c ∷ g) ∷ (d ∷ h) ∷ gs) ≡ some (pos 0)
unfolding evaluate_groups
evaluate_groups-vacuous eval c d g h gs ret v m e =
    rw
      (
        group_unmet eval (parts (c ∷ g)) ret v m,
        evaluate_groups,
        vacuous_group eval (parts (d ∷ h)) (pos 0) e,
      )
      refl
