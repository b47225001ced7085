-- ===== src/Policy/Evaluator/Shuffle.antt =====
-- The order of the rules does not matter to `compute_verdict` of policy_engine/evaluator.py.
use device_weave.Prelude.{
  ◌≡◌, refl, sym, ◌∙◌, ap, Bool, true, List, [], ◌∷◌, arith, any, Option, some, Bool-cases, inl,
  inr, bool_ext,
}
use mathlib.Core.List.{Memᴰ}
use mathlib.Core.Path.{subst}
use device_weave.Prelude.Text.{String}
use device_weave.Policy.Data.{Params, Context, Rule, Verdict, allow, block, modify, PolicyDecision}
use device_weave.Policy.Evaluator.{rule_winner_key, compute_verdict}
use device_weave.Policy.Evaluator.Keys.{key_antisym}
use device_weave.Policy.Evaluator.Priority.{claims, compute_verdict_priority}
use device_weave.Policy.Evaluator.Winner.{All-mem, Winner, Reports, compute_verdict-Reports}

-- Every rule of the one list is in the other.
abbrev pub Within : List Rule → List Rule → Type 0
Within ps qs = (r : Rule) → Memᴰ r ps → Memᴰ r qs

pub any-of_mem :
    (P : Rule → Bool) (qs : List Rule) (r : Rule) → Memᴰ r qs → P r ≡ true → any P qs ≡ true
any-of_mem P [] r m h = elim m [ ]
any-of_mem P (q ∷ qs) r (Memᴰ.head e) h = rw (sym (ap P e) ∙ h) refl
any-of_mem P (q ∷ qs) r (Memᴰ.tail m) h = ground (arith, any-of_mem P qs r m h)

any-Within :
    (P : Rule → Bool) (ps qs : List Rule) → Within ps qs → any P ps ≡ true → any P qs ≡ true
any-Within P [] qs sub h = cc
any-Within P (p ∷ ps) qs sub h = elim (Bool-cases (P p)) [
  | inl holds ↦ any-of_mem P qs p (sub p (Memᴰ.head refl)) holds
  | inr fails ↦ any-Within P ps qs (λ r m. sub r (Memᴰ.tail m)) (ground arith)
]

any_same : (P : Rule → Bool) (ps qs : List Rule) → Within ps qs → Within qs ps → any P ps ≡ any P qs
any_same P ps qs sub sup =
    bool_ext (any P ps) (any P qs) (any-Within P ps qs sub) (any-Within P qs ps sup)

module _ (dumps : Params → String) where
  -- Two rules with the same key have the same id, reason and parameters.
  abbrev pub HasNoTies : List Rule → Type 0
  HasNoTies ps =
      (p q : Rule)
      → Memᴰ p ps
      → Memᴰ q ps
      → rule_winner_key dumps p ≡ rule_winner_key dumps q
      → (p.rule_id ≡ q.rule_id) × (p.reason ≡ q.reason) × (p.params ≡ q.params)

  module _ (device_type : String) (context : Context) (ps qs : List Rule) (sub : Within ps qs)
      (sup : Within qs ps) (ties : HasNoTies ps) where
    least_agree :
        (kind : String) (p q : Rule)
        → Winner dumps device_type context kind ps p
        → Winner dumps device_type context kind qs q
        → (p.rule_id ≡ q.rule_id) × (p.reason ≡ q.reason) × (p.params ≡ q.params)
    least_agree kind p q w v = ties p q w.listed (sup q v.listed) (
        key_antisym _ _ (All-mem _ qs p v.least (sub p w.listed) w.claimed)
          (All-mem _ ps q w.least (sup q v.listed) v.claimed))

    decisions_agree :
        (v : Verdict) (d e : PolicyDecision)
        → Reports dumps device_type context ps v d
        → Reports dumps device_type context qs v e
        → d ≡ e
    decisions_agree allow d e h k = h ∙ sym k
    decisions_agree block d e (p, w, h) (q, v, k) =
        let (i, r, _) = least_agree "block" p q w v in
        h
        ∙ (λ j. record {
          verdict = block;
          reason = r j;
          rule_id = i j;
          modified_params = Option.none;
        })
        ∙ sym k
    decisions_agree modify d e (p, w, h) (q, v, k) =
        let (i, r, m) = least_agree "modify" p q w v in
        h
        ∙ (λ j. record {
          verdict = modify;
          reason = r j;
          rule_id = i j;
          modified_params = some (m j);
        })
        ∙ sym k

    same_verdict :
        (action : String)
        → (compute_verdict dumps qs device_type action context).verdict
          ≡ (compute_verdict dumps ps device_type action context).verdict
    same_verdict action =
        compute_verdict_priority dumps qs device_type action context
        ∙ (rw
            (
              ← any_same (claims "block" device_type context) ps qs sub sup,
              ← any_same (claims "modify" device_type context) ps qs sub sup,
            )
            (sym (compute_verdict_priority dumps ps device_type action context)))

  -- Two lists of the same rules, in any order and with any repetition, get the same decision, if
  -- rules that agree in `rule_winner_key` agree in id, reason and parameters.
  pub compute_verdict_shuffle :
      (ps qs : List Rule) (device_type action : String) (context : Context)
      → Within ps qs
      → Within qs ps
      → HasNoTies ps
      → compute_verdict dumps ps device_type action context
        ≡ compute_verdict dumps qs device_type action context
  compute_verdict_shuffle ps qs device_type action context sub sup ties =
      let d = compute_verdict dumps ps device_type action context in
      let e = compute_verdict dumps qs device_type action context in
      decisions_agree device_type context ps qs sub sup ties d.verdict d e
        (compute_verdict-Reports dumps device_type context ps action)
        (subst (λ v. Reports dumps device_type context qs v e)
          (same_verdict device_type context ps qs sub sup ties action)
          (compute_verdict-Reports dumps device_type context qs action))
