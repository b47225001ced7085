-- ===== src/Policy/Evaluator/Winner.antt =====
-- Which rule `compute_verdict` of policy_engine/evaluator.py reports, and that the order of the
-- rules does not matter.
use device_weave.Prelude.{
  ◌≡◌, refl, sym, ap, ◌∙◌, ◌⊎◌, Bool, true, false, none, some, List, [], ◌∷◌, All, Bool-cases, inl,
  inr, if◌then◌else◌,
}
use mathlib.Core.List.{Memᴰ}
use mathlib.Core.Path.{subst}
use mathlib.Core.Bool.{true≢false}
use device_weave.Prelude.Text.{String}
use device_weave.Policy.Data.{Params, Context, Rule, Verdict, allow, block, modify, PolicyDecision}
use device_weave.Policy.Evaluator.{
  is_safe, min_rule, matching, pick_modify, pick, compute_verdict, allow_decision,
}
use device_weave.Policy.Evaluator.Keys.{before, IsLeast, min_rule-IsLeast}
use device_weave.Policy.Evaluator.Priority.{claims}

pub All-mem : {A : Type 0} (P : A → Type 0) (xs : List A) (x : A) → All P xs → Memᴰ x xs → P x
All-mem P [] x h m = elim m [ ]
All-mem P (y ∷ ys) x (p, h) (Memᴰ.head e) = subst P (sym e) p
All-mem P (y ∷ ys) x (p, h) (Memᴰ.tail m) = All-mem P ys x h m

-- The rules that the loop collects are those of the list that make the claim.
matching_split :
    (kind device_type : String) (context : Context) (q : Rule) (ps : List Rule)
    → (let rest = matching kind device_type context ps in
        ((claims kind device_type context q ≡ true)
          × (matching kind device_type context (q ∷ ps) ≡ q ∷ rest))
        ⊎ ((claims kind device_type context q ≡ false)
            × (matching kind device_type context (q ∷ ps) ≡ rest)))
unfolding matching
matching_split kind dt c q ps = elim (Bool-cases (claims kind dt c q)) [
  | inl kept ↦ inl (kept, rw (kept, if◌then◌else◌) refl)
  | inr dropped ↦ inr (dropped, rw (dropped, if◌then◌else◌) refl)
]

mem-cons_of :
    {q : Rule} (P : Rule → Bool) {rest ps : List Rule} (p : Rule)
    → P q ≡ true
    → (Memᴰ p rest → Memᴰ p ps × (P p ≡ true))
    → Memᴰ p (q ∷ rest)
    → Memᴰ p (q ∷ ps) × (P p ≡ true)
mem-cons_of P p h ih (Memᴰ.head e) = (Memᴰ.head e, ap P e ∙ h)
mem-cons_of P p h ih (Memᴰ.tail m) = let (m', h') = ih m in (Memᴰ.tail m', h')

matching-mem :
    (kind device_type : String) (context : Context) (ps : List Rule) (p : Rule)
    → Memᴰ p (matching kind device_type context ps)
    → Memᴰ p ps × (claims kind device_type context p ≡ true)
matching-mem kind dt c [] p m = let none' : Memᴰ p [] = unfold matching in m in elim none' [ ]
matching-mem kind dt c (q ∷ ps) p m = elim (matching_split kind dt c q ps) [
  | inl (kept, e) ↦
      mem-cons_of (claims kind dt c) p kept (matching-mem kind dt c ps p)
        (subst (λ l. Memᴰ p l) e m)
  | inr (dropped, e) ↦
      let (m', h) = matching-mem kind dt c ps p (subst (λ l. Memᴰ p l) e m) in (Memᴰ.tail m', h)
]

mem-matching :
    (kind device_type : String) (context : Context) (ps : List Rule) (p : Rule)
    → Memᴰ p ps
    → claims kind device_type context p ≡ true
    → Memᴰ p (matching kind device_type context ps)
mem-matching kind dt c [] p m h = elim m [ ]
mem-matching kind dt c (q ∷ ps) p (Memᴰ.head same) h = elim (matching_split kind dt c q ps) [
  | inl (kept, e) ↦ subst (λ l. Memᴰ p l) (sym e) (Memᴰ.head same)
  | inr (dropped, e) ↦ absurd (true≢false (sym h ∙ ap (claims kind dt c) same ∙ dropped))
]
mem-matching kind dt c (q ∷ ps) p (Memᴰ.tail m) h = elim (matching_split kind dt c q ps) [
  | inl (kept, e) ↦ subst (λ l. Memᴰ p l) (sym e) (Memᴰ.tail (mem-matching kind dt c ps p m h))
  | inr (dropped, e) ↦ subst (λ l. Memᴰ p l) (sym e) (mem-matching kind dt c ps p m h)
]

-- What a bound over the collected rules says of the whole list.
matching-All :
    (kind device_type : String) (context : Context) (P : Rule → Type 0) (ps qs : List Rule)
    → All P (matching kind device_type context ps)
    → ((q : Rule) → Memᴰ q qs → Memᴰ q ps)
    → All (λ q. claims kind device_type context q ≡ true → P q) qs
matching-All kind dt c P ps [] h sub = tt
matching-All kind dt c P ps (q ∷ qs) h sub = (
  λ e.
      All-mem P (matching kind dt c ps) q h
        (mem-matching kind dt c ps q (sub q (Memᴰ.head refl)) e),
  matching-All kind dt c P ps qs h (λ r m. sub r (Memᴰ.tail m)),
)

module _ (dumps : Params → String) (device_type : String) (context : Context) where
  -- A rule of the list that makes the claim, before which no other that makes it comes.
  pub record Winner (kind : String) (ps : List Rule) (p : Rule) : Type 0 where
    pub listed : Memᴰ p ps
    pub claimed : claims kind device_type context p ≡ true
    pub least : All (λ q. claims kind device_type context q ≡ true → before dumps q p ≡ false) ps

  Winner-of_IsLeast :
      (kind : String) (ps : List Rule) (p : Rule)
      → IsLeast dumps p (matching kind device_type context ps)
      → Winner kind ps p
  Winner-of_IsLeast kind ps p (m, h) =
      let (listed, claimed) = matching-mem kind device_type context ps p m in
      record {
        listed = listed;
        claimed = claimed;
        least = matching-All kind device_type context _ ps ps h (λ q m. m);
      }

  abbrev pub block_decision : Rule → PolicyDecision
  block_decision p = record {
    verdict = block;
    reason = p.reason;
    rule_id = p.rule_id;
    modified_params = none;
  }

  abbrev pub modify_decision : Rule → PolicyDecision
  modify_decision p = record {
    verdict = modify;
    reason = p.reason;
    rule_id = p.rule_id;
    modified_params = some p.params;
  }

  -- What a decision reports, by its verdict.
  abbrev pub Reports : List Rule → Verdict → PolicyDecision → Type 0
  Reports ps allow d = d ≡ allow_decision
  Reports ps block d = (p : Rule) × Winner "block" ps p × (d ≡ block_decision p)
  Reports ps modify d = (p : Rule) × Winner "modify" ps p × (d ≡ modify_decision p)

  pick-Reports :
      (ps bs ms : List Rule)
      → bs ≡ matching "block" device_type context ps
      → ms ≡ matching "modify" device_type context ps
      → Reports ps (pick dumps bs ms).verdict (pick dumps bs ms)
  unfolding pick pick_modify
  pick-Reports ps [] [] e f = refl
  pick-Reports ps [] (m ∷ ms) e f = (
    min_rule dumps m ms,
    Winner-of_IsLeast "modify" ps _ (subst (IsLeast dumps _) f (min_rule-IsLeast dumps m ms)),
    refl,
  )
  pick-Reports ps (b ∷ bs) ms e f = (
    min_rule dumps b bs,
    Winner-of_IsLeast "block" ps _ (subst (IsLeast dumps _) e (min_rule-IsLeast dumps b bs)),
    refl,
  )

  -- A block or a modification reports the reason, the id and the parameters of a listed rule that
  -- makes the claim, and no other rule that makes it comes before that one by `rule_winner_key`.
  -- An allowed action reports no rule.
  pub compute_verdict-Reports :
      (policies : List Rule) (action : String)
      → let d = compute_verdict dumps policies device_type action context in
        Reports policies d.verdict d
  unfolding compute_verdict
  compute_verdict-Reports ps action =
      let bs = matching "block" device_type context ps in
      let ms = matching "modify" device_type context ps in
      elim (is_safe action)
        as (λ s. let d = if s then allow_decision else pick dumps bs ms in Reports ps d.verdict d) [
          | true ↦ refl
          | false ↦ pick-Reports ps bs ms refl refl
        ]
