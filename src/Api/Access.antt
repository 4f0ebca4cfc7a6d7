-- ===== src/Api/Access.antt =====
-- api.go: who may call a route. `authed` checks the bearer token and then the role.
pub mod Guard
use Prim.Native.String
use Prim.Native.Char.{Char, code}
use ttd_elektronik.Prelude.{
  ℕ, String, Bool, true, false, Option, none, some, ◌==◌, ◌&&◌, ◌||◌, not, if◌then◌else◌, Result,
  ok, err, strip_prefix, strip_or_self,
}
use ttd_elektronik.Api.Types.{Claims, Response, write_err}
use ttd_elektronik.Store.Types.{role_user, role_admin, role_super_admin}

-- The switch on `minRole`; `none` lets the request through.
unfoldable pub refusal : String → String → Option Response
refusal min_role role =
    if min_role == role_admin
    then (if not (role == role_admin) && not (role == role_super_admin)
        then some (write_err 403 "admin only")
        else none)
    else if min_role == role_super_admin
    then (if not (role == role_super_admin) then some (write_err 403 "super admin only") else none)
    else none

-- `authed`: `parse` is the signer's, `header` the Authorization header ("" where there is none).
unfoldable pub authed {ℓ} :
    {S : Type ℓ}
    → (String → Option Claims)
    → String
    → String
    → (Claims → S → S × Response)
    → S
    → S × Response
authed parse min_role header handler s =
    let tok = strip_or_self "Bearer " header in
    if tok == "" || tok == header
    then (s, write_err 401 "missing bearer token")
    else elim (parse tok) [
      | none ↦ (s, write_err 401 "invalid token")
      | some c ↦ elim (refusal min_role c.role) [ some r ↦ (s, r) | none ↦ handler c s ]
    ]

unfoldable pub user {ℓ} :
    {S : Type ℓ}
    → (String → Option Claims)
    → String
    → (Claims → S → S × Response)
    → S
    → S × Response
unfolding authed
user parse = authed parse role_user

unfoldable pub admin {ℓ} :
    {S : Type ℓ}
    → (String → Option Claims)
    → String
    → (Claims → S → S × Response)
    → S
    → S × Response
unfolding authed
admin parse = authed parse role_admin

unfoldable pub superadmin {ℓ} :
    {S : Type ℓ}
    → (String → Option Claims)
    → String
    → (Claims → S → S × Response)
    → S
    → S × Response
unfolding authed
superadmin parse = authed parse role_super_admin
