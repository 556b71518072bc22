-- ===== src/Middleware/Admin.antt =====
-- api/internal/middleware/admin.go: the gate of the endpoints that only the operator may call.
use zaas.Prelude.{◌≡◌, ◌≢◌, ◌⊎◌, String, not, ◌||◌, some, arith, str_eq, str_eq_iff, if◌then◌else◌}
use zaas.Http.{Request, Response, Handler, Middleware, header, blank}
use zaas.Middleware.Problem.{write_problem}

-- `subtle.ConstantTimeCompare` on the bytes of two strings gives 1 exactly when they are equal.
unfoldable pub admin_auth : {S : Type 0} → String → Middleware S
admin_auth admin_token next r w s =
    let provided = header "X-Admin-Token" r in
    if str_eq admin_token "" || not (str_eq provided admin_token)
    then (write_problem r w "INVALID_ADMIN_TOKEN" "Missing or invalid X-Admin-Token header.", s)
    else next r w s

-- A request that carries the configured token, which is not empty, goes to the next handler with
-- nothing changed on the way.
admin_auth_opens :
    {S : Type 0} (admin_token : String) (next : Handler S) (r : Request) (w : Response) (s : S)
    → admin_token ≢ ""
    → header "X-Admin-Token" r ≡ admin_token
    → admin_auth admin_token next r w s ≡ next r w s
unfolding admin_auth
admin_auth_opens admin_token next r w s set same =
    ground (arith, str_eq_iff admin_token "", str_eq_iff (header "X-Admin-Token" r) admin_token)

-- The answer of the closed gate.
pub admin_auth-closed :
    {S : Type 0} (admin_token : String) (next : Handler S) (r : Request) (w : Response) (s : S)
    → (admin_token ≡ "") ⊎ (header "X-Admin-Token" r ≢ admin_token)
    → admin_auth admin_token next r w s
      ≡ (write_problem r w "INVALID_ADMIN_TOKEN" "Missing or invalid X-Admin-Token header.", s)
unfolding admin_auth
admin_auth-closed admin_token next r w s closed =
    ground (arith, str_eq_iff admin_token "", str_eq_iff (header "X-Admin-Token" r) admin_token)

-- Without a configured token, or with another one in the request, the answer is 401 and the next
-- handler does not run: the state of the world stays as it was.
admin_auth_closes :
    {S : Type 0} (admin_token : String) (next : Handler S) (r : Request) (s : S)
    → (admin_token ≡ "") ⊎ (header "X-Admin-Token" r ≢ admin_token)
    → let (w, s') = admin_auth admin_token next r blank s in (w.status ≡ some 401) × (s' ≡ s)
unfolding admin_auth write_problem
admin_auth_closes admin_token next r s closed =
    ground (arith, str_eq_iff admin_token "", str_eq_iff (header "X-Admin-Token" r) admin_token)
