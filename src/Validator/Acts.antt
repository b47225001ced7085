-- ===== src/Validator/Acts.antt =====
-- What the check of the action lets through.
use device_weave.Prelude.{◌≡◌, sym, true, false, Option, none, some, Bool-cases, inl, inr}
use device_weave.Prelude.Text.{String, str_eq, str_in, strip_text}
use device_weave.Policy.Data.{null, bool, num, str, get}
use device_weave.Validator.Policies.{
  Entry, atom, dictionary, sequence, Part, leaf, mapping, items, passed, Action, check_action,
  check_type, check_reason, check_params, action_types,
}

abbrev pub IsActing : Action → Type 0
IsActing a = (str_in a.action_type action_types ≡ true) × (str_eq (strip_text a.reason) "" ≡ false)

params-IsActing :
    (kind reason : String) (p : Option Entry) (a : Action)
    → str_in kind action_types ≡ true
    → str_eq (strip_text reason) "" ≡ false
    → check_params kind reason p ≡ passed a
    → IsActing a
params-IsActing kind reason none a k r h =
    let e : record { action_type = kind; reason = reason; params = none } ≡ a = cc h in
    rw (sym e) (k, r)
params-IsActing kind reason (some (dictionary d)) a k r h =
    let e : record { action_type = kind; reason = reason; params = some d } ≡ a = cc h in
    rw (sym e) (k, r)
params-IsActing kind reason (some (atom v)) a k r h = cc
params-IsActing kind reason (some sequence) a k r h = cc

reason-IsActing :
    (kind : String) (reason p : Option Entry) (a : Action)
    → str_in kind action_types ≡ true
    → check_reason kind reason p ≡ passed a
    → IsActing a
reason-IsActing kind (some (atom (str r))) p a k h = elim (Bool-cases (str_eq (strip_text r) "")) [
  | inl blank ↦ absurd (cc (simp blank at h))
  | inr text ↦ params-IsActing kind r p a k text (simp text at h)
]
reason-IsActing kind none p a k h = cc
reason-IsActing kind (some (atom null)) p a k h = cc
reason-IsActing kind (some (atom (bool b))) p a k h = cc
reason-IsActing kind (some (atom (num x))) p a k h = cc
reason-IsActing kind (some (dictionary d)) p a k h = cc
reason-IsActing kind (some sequence) p a k h = cc

type-IsActing :
    (t reason p : Option Entry) (a : Action) → check_type t reason p ≡ passed a → IsActing a
type-IsActing (some (atom (str kind))) r p a h = elim (Bool-cases (str_in kind action_types)) [
  | inl known ↦ reason-IsActing kind r p a known (simp known at h)
  | inr unknown ↦ absurd (cc (simp unknown at h))
]
type-IsActing none r p a h = cc
type-IsActing (some (atom null)) r p a h = cc
type-IsActing (some (atom (bool b))) r p a h = cc
type-IsActing (some (atom (num x))) r p a h = cc
type-IsActing (some (dictionary d)) r p a h = cc
type-IsActing (some sequence) r p a h = cc

pub check_action-IsActing : (x : Part) (a : Action) → check_action x ≡ passed a → IsActing a
unfolding check_action
check_action-IsActing (leaf v) a h = cc
check_action-IsActing (items cs) a h = cc
check_action-IsActing (mapping d) a h =
    type-IsActing (get d "type") (get d "reason") (get d "params") a h
