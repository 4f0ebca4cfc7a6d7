-- ===== src/Api/Access/Guard.antt =====
-- What `authed` has checked before a handler runs, and that it refuses no request that passes.
use Prim.Native.String.{count}
use text.Mathlib.TextLemmas.{length-append}
use ttd_elektronik.Prelude.{
  String, Option, none, some, ◌&◌, eq_iff, ==-false, ◌≡◌, ◌≢◌, ap, ◌⊎◌, inl, inr, arith,
  Option-cases, ◌∙◌, strip_prefix, strip_or_self, strip_or_self-none, strip_or_self-some,
  strip_prefix_sound, strip_prefix-append,
}
use ttd_elektronik.Api.Types.{Claims, Response}
use ttd_elektronik.Api.Access.{authed, refusal}
use ttd_elektronik.Store.Types.{role_admin, role_super_admin}

-- The roles that a route's minimum admits: an admin route takes both kinds of operator.
abbrev pub MayEnter : String → String → Type 0
MayEnter min_role role =
    (min_role ≡ role_admin) × ((role ≡ role_admin) ⊎ (role ≡ role_super_admin))
    ⊎ (min_role ≡ role_super_admin) × (role ≡ role_super_admin)
    ⊎ (min_role ≢ role_admin) × (min_role ≢ role_super_admin)

-- The header carries a non-empty token that the signer accepts with these claims.
abbrev pub Carries : (String → Option Claims) → String → Claims → Type 0
Carries parse header c =
    (tok : String) × (header ≡ "Bearer " & tok) × (tok ≢ "") × (parse tok ≡ some c)

refusal-none : (min_role role : String) → refusal min_role role ≡ none → MayEnter min_role role
unfolding refusal
refusal-none min_role role e = ground (
  arith,
  eq_iff min_role role_admin,
  eq_iff min_role role_super_admin,
  eq_iff role role_admin,
  eq_iff role role_super_admin,
)

refusal_of_MayEnter :
    (min_role role : String) → MayEnter min_role role → refusal min_role role ≡ none
unfolding refusal
refusal_of_MayEnter min_role role e = ground (
  arith,
  eq_iff min_role role_admin,
  eq_iff min_role role_super_admin,
  eq_iff role role_admin,
  eq_iff role role_super_admin,
)

-- A text is shorter than itself behind another.
bearer-ne : (tok : String) → tok ≢ "Bearer " & tok
bearer-ne tok e = absurd (omega (arith, length-append "Bearer " tok, ap count e))

module _ {ℓ} {S : Type ℓ} (parse : String → Option Claims) (min_role header : String)
    (handler : Claims → S → S × Response) (s : S) where
  -- A request that carries a token which the signer accepts, with a role that the route admits,
  -- reaches the handler.
  pub authed_complete :
      (c : Claims)
      → Carries parse header c
      → MayEnter min_role c.role
      → authed parse min_role header handler s ≡ handler c s
  unfolding authed
  authed_complete c (tok, shape, nonempty, accepted) may =
      let found : strip_or_self "Bearer " header ≡ tok =
        rw shape (
          strip_or_self-some "Bearer " ("Bearer " & tok) tok (strip_prefix-append "Bearer " tok)) in
      ground (
        arith,
        found,
        ==-false tok "" nonempty,
        ==-false tok header (λ e. bearer-ne tok (e ∙ shape)),
        refusal_of_MayEnter min_role c.role may,
      )

  -- If the state changes, the header carried a valid token whose role the route admits, and the
  -- handler ran with its claims.
  pub authed_sound :
      (authed parse min_role header handler s).0 ≢ s
      → (c : Claims) × Carries parse header c
        × MayEnter min_role c.role
        × (authed parse min_role header handler s ≡ handler c s)
  unfolding authed
  authed_sound changed = elim (Option-cases (strip_prefix "Bearer " header)) [
    | inl absent ↦ absurd (
        changed (
          ground (
            arith,
            strip_or_self-none "Bearer " header absent,
            eq_iff (strip_or_self "Bearer " header) header,
          )))
    | inr (tok, found) ↦ elim (Option-cases (parse tok)) [
      | inl invalid ↦
          absurd (changed (ground (arith, strip_or_self-some "Bearer " header tok found)))
      | inr (c, accepted) ↦ elim (Option-cases (refusal min_role c.role)) [
        | inr (r, refused) ↦
            absurd (changed (ground (arith, strip_or_self-some "Bearer " header tok found)))
        | inl admitted ↦
            let carries : Carries parse header c = (
              tok,
              strip_prefix_sound "Bearer " header tok found,
              λ empty. changed (
                  ground (
                    arith,
                    strip_or_self-some "Bearer " header tok found,
                    eq_iff (strip_or_self "Bearer " header) "",
                  )),
              accepted,
            ) in
            let may = refusal-none min_role c.role admitted in
            (c, carries, may, authed_complete c carries may)
      ]
    ]
  ]
