-- ===== src/RestAuth/Gate.antt =====
-- What a REST request that changes state has shown when it passes rest_auth.py.
use device_weave.Prelude.{
  ℕ, ◌≡◌, refl, sym, inl, inr, ◌⊎◌, Bool, true, false, not, ◌&&◌, Option, some, List, if◌then◌else◌,
  arith, Bool-cases,
}
use device_weave.Prelude.Text.{str_eq, codes, codes_eq}
use device_weave.Access.Authorizer.{ToolPolicy, Principal, Outcome, allowed, refused}
use device_weave.RestAuth.{
  Request, Credential, unavailable, rejected, verified, passes, destructive_route, or_unknown,
  by_outcome, by_credential, check, route_policy, is_read, upper,
}

module _ (read execute : ToolPolicy) where
  -- The routes that change state need one of two policies.
  abbrev pub IsChanging : Option ToolPolicy → Type 0
  IsChanging o = (o ≡ some execute) ⊎ (o ≡ some destructive_route)

  get_is_read : (m : List ℕ) → is_read m ≡ false → codes_eq m (codes "GET") ≡ false
  unfolding is_read
  get_is_read m h = ground arith

  two_policies :
      (a b : Bool)
      → IsChanging
          (if a then some destructive_route else if b then some destructive_route else some execute)
  two_policies true b = inr refl
  two_policies false true = inr refl
  two_policies false false = inl refl

  pub route_policy-IsChanging :
      (method path : List ℕ)
      → is_read method ≡ false
      → IsChanging (route_policy read execute method path)
  unfolding route_policy
  route_policy-IsChanging method path h =
      let g = get_is_read method h in simp h (simp g (two_policies _ _))

  module _ (bearer : Request → Credential) (authorize : Principal → ToolPolicy → Outcome) where
    -- The request came with a verified credential, whose principal the authorizer allows.
    abbrev pub IsGranted : Request → ToolPolicy → Option Principal → Type 0
    IsGranted r policy who =
        (p : Option Principal) × (bearer r ≡ verified p)
        × (authorize (or_unknown read execute bearer authorize p) policy ≡ allowed)
        × (who ≡ some (or_unknown read execute bearer authorize p))

    outcome_allowed :
        (p : Principal) (o : Outcome) (who : Option Principal)
        → by_outcome read execute bearer authorize p o ≡ passes who
        → (o ≡ allowed) × (who ≡ some p)
    outcome_allowed p allowed who h = (refl, sym (cc h))
    outcome_allowed p (refused reason) who h = cc

    enforced :
        (r : Request) (policy : ToolPolicy) (c : Credential) (who : Option Principal)
        → bearer r ≡ c
        → by_credential read execute bearer authorize false policy c ≡ passes who
        → IsGranted r policy who
    enforced r policy unavailable who e h = cc
    enforced r policy rejected who e h = cc
    enforced r policy (verified p) who e h =
        let (a, b) = outcome_allowed (or_unknown read execute bearer authorize p) _ who h in
        (p, e, a, b)

    -- A request whose method is none of GET, HEAD and OPTIONS passes only with a verified credential
    -- whose principal the authorizer allows: always so for the destructive routes, and for the others
    -- unless the gate is in audit mode.
    pub check-IsGranted :
        (audit : Bool) (r : Request) (who : Option Principal)
        → is_read (upper (codes r.method)) ≡ false
        → check read execute bearer authorize audit (some r) ≡ passes who
        → (policy : ToolPolicy) × (route_policy read execute (upper (codes r.method)) (codes r.path)
            ≡ some policy)
          × ((IsGranted r policy who × ((policy ≡ execute) ⊎ (policy ≡ destructive_route)))
              ⊎ ((audit ≡ true) × (policy ≡ execute)))
    unfolding check
    check-IsGranted audit r who m h =
        by_route (route_policy-IsChanging (upper (codes r.method)) (codes r.path) m)
      where
        by_route :
            IsChanging (route_policy read execute (upper (codes r.method)) (codes r.path))
            → (policy : ToolPolicy) × (route_policy read execute
                  (upper (codes r.method))
                  (codes r.path)
                ≡ some policy)
              × ((IsGranted r policy who × ((policy ≡ execute) ⊎ (policy ≡ destructive_route)))
                  ⊎ ((audit ≡ true) × (policy ≡ execute)))
        by_route (inr e) =
            let h' : by_credential read execute bearer authorize (audit && false) destructive_route
                  (bearer r)
                ≡ passes who =
              rw e at h in
            let f : (audit && false) ≡ false = ground arith in
            (
              destructive_route,
              e,
              inl (enforced r destructive_route (bearer r) who refl (rw f at h'), inr refl),
            )
        by_route (inl e) = elim (Bool-cases audit) [
          | inl on ↦ (execute, e, inr (on, refl))
          | inr off ↦
              let h' : by_credential read execute bearer authorize
                    (audit && not (str_eq execute.scope "destructive")) execute (bearer r)
                  ≡ passes who =
                rw e at h in
              (execute, e, inl (enforced r execute (bearer r) who refl (rw off at h'), inl refl))
        ]
