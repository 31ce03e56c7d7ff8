-- ===== src/Policy/Choice.antt =====
-- When what a policy answers is an option that the policy asks for, and what it answers otherwise.
use poe_acp_relay.Base.{
  String, ◌≡◌, refl, sym, subst, ap, ◌∙◌, true, false, List, [], ◌∷◌, arith, any, All,
  if◌then◌else◌, ◌==◌, ◌⊎◌, inl, inr, Bool-cases,
}
use poe_acp_relay.Policy.{
  Policy, allow_all, read_only, deny_all, PermissionOption, PermissionRequest, matches, first_match,
  first_id, pick, is_writeish, decide,
}

module _ (to_lower : String → String) where
  -- An option with this id is offered whose name or kind asks for it.
  abbrev pub IsWanted : String → String → List PermissionOption → Type 0
  IsWanted want id [] = ⊥
  IsWanted want id (o ∷ os) =
      ((o.option_id ≡ id) × (matches to_lower want o ≡ true)) ⊎ IsWanted want id os

  first_match-IsWanted :
      (want : String) (os : List PermissionOption)
      → any (matches to_lower want) os ≡ true
      → IsWanted want (first_match to_lower want os) os
  unfolding first_match
  first_match-IsWanted want [] h = cc
  first_match-IsWanted want (o ∷ os) h = elim (Bool-cases (matches to_lower want o)) [
    | inl e ↦ inl (ground (arith, e), e)
    | inr e ↦
        let skip : first_match to_lower want os ≡ first_match to_lower want (o ∷ os) =
          ground (arith, e) in
        inr (
          subst (λ x. IsWanted want x os) skip
            (first_match-IsWanted want os (ground (arith, h, e))))
  ]

  IsWanted-named :
      (want id : String) (os : List PermissionOption)
      → All (λ o. (o.option_id == "") ≡ false) os
      → IsWanted want id os
      → (id == "") ≡ false
  IsWanted-named want id [] h w = elim w [ ]
  IsWanted-named want id (o ∷ os) (n, h) (inl (e, _)) = ap (λ x. x == "") (sym e) ∙ n
  IsWanted-named want id (o ∷ os) (n, h) (inr w) = IsWanted-named want id os h w

  first_match_none :
      (want : String) (os : List PermissionOption)
      → any (matches to_lower want) os ≡ false
      → first_match to_lower want os ≡ ""
  unfolding first_match
  first_match_none want [] h = refl
  first_match_none want (o ∷ os) h = ground (arith, first_match_none want os)

  -- What a policy asks an option for.
  unfoldable pub wanted : Policy → PermissionRequest → String
  wanted allow_all req = "allow"
  wanted deny_all req = "reject"
  wanted read_only req = if is_writeish to_lower req then "reject" else "allow"

  decide-pick :
      (p : Policy) (req : PermissionRequest)
      → decide to_lower p req ≡ pick to_lower req.options (wanted p req)
  unfolding decide wanted
  decide-pick allow_all req = refl
  decide-pick deny_all req = refl
  decide-pick read_only req = ground arith

  -- Where some offered option asks for what the policy wants ("allow", or "reject"; a read-only policy
  -- wants "reject" exactly for a call whose title names a writing verb) and no option has the id "",
  -- the answer is such an option.
  pub decide-IsWanted :
      (p : Policy) (req : PermissionRequest)
      → All (λ o. (o.option_id == "") ≡ false) req.options
      → any (matches to_lower (wanted p req)) req.options ≡ true
      → IsWanted (wanted p req) (decide to_lower p req) req.options
  unfolding pick
  decide-IsWanted p req n h =
      let w = first_match-IsWanted (wanted p req) req.options h in
      let e = IsWanted-named (wanted p req) _ req.options n w in rw (decide-pick p req, pick, e) w

  -- Where no offered option asks for what the policy wants, the answer is the first option, whatever it
  -- is.
  pub decide_fallback :
      (p : Policy) (req : PermissionRequest) (o : PermissionOption) (os : List PermissionOption)
      → req.options ≡ o ∷ os
      → any (matches to_lower (wanted p req)) req.options ≡ false
      → decide to_lower p req ≡ o.option_id
  unfolding pick first_id
  decide_fallback p req o os e h =
      let none_matches = first_match_none (wanted p req) req.options h in
      rw (decide-pick p req, pick, none_matches) rw e refl
