-- ===== src/Api/Routes/Protected.antt =====
-- Handler of internal/manager/api/router.go: what a request without a session can reach.
use sit.Prelude.{
  ℕ, Text, text, ltb, ◌==◌, ◌||◌, ◌≡◌, ◌⊎◌, refl, inl, inr, Bool, true, false, none, some, List, [],
  ◌∷◌, All, get, map, sym, Bool-cases, Option-cases, eq_iff,
}
use sit.Exec.{Exec, Result, ok}
use sit.Protocol.{Json}
use sit.Auth.{Crypto}
use sit.Manager.{Manager, AdminSession}
use sit.Api.{Reply, bearer_token, require_admin}
use sit.Api.Access.{require_admin_guards}
use sit.Api.Routes.{
  word, Route, Request, Choice, found, missing, routes, match_path, takes, choose, run_handler,
  run_route, chosen, serve_api, first, is_clean,
}

abbrev pub login_path : List Text
login_path = text "api" ∷ text "v1" ∷ text "auth" ∷ text "login" ∷ []

abbrev pub exchange_path : List Text
exchange_path = text "api" ∷ text "v1" ∷ text "enroll" ∷ text "exchange" ∷ []

match_path-words :
    (ws path : List Text) {ids : List Text} → match_path (map word ws) path ≡ some ids → path ≡ ws
unfolding match_path
match_path-words [] [] e = refl
match_path-words [] (s ∷ path) e = cc
match_path-words (w ∷ ws) [] e = cc
match_path-words (w ∷ ws) (s ∷ path) {ids} e = elim (Bool-cases (w == s)) [
  | inl same ↦
      let later : match_path (map word ws) path ≡ some ids = rw same at e in
      rw ((eq_iff w s).0 same, match_path-words ws path later) refl
  | inr other ↦ let bad : none ≡ some ids = rw other at e in cc
]

abbrev IsOpen : Route → Type 0
IsOpen r =
    (r.is_protected ≡ true)
    ⊎ ((r.method ≡ text "POST")
        × ((r.pattern ≡ map word login_path) ⊎ (r.pattern ≡ map word exchange_path)))

routes-IsOpen : All IsOpen routes
routes-IsOpen = (
  inr (refl, inl refl),
  (
    inr (refl, inr refl),
    (
      inl refl,
      (
        inl refl,
        (
          inl refl,
          (
            inl refl,
            (
              inl refl,
              (
                inl refl,
                (
                  inl refl,
                  (
                    inl refl,
                    (inl refl, (inl refl, (inl refl, (inl refl, (inl refl, (inl refl, tt)))))),
                  ),
                ),
              ),
            ),
          ),
        ),
      ),
    ),
  ),
)

-- what the table's choice is, where each route of the table has a property
abbrev Chosen : (Route → Type 0) → Text → List Text → Choice → Type 0
Chosen P method path (missing status) = (status ≡ 404) ⊎ (status ≡ 405)
Chosen P method path (found r ids) =
    P r × (takes r.method method ≡ true) × (match_path r.pattern path ≡ some ids)

choose-Chosen :
    (P : Route → Type 0) (rs : List Route) (method : Text) (path : List Text) (status : ℕ)
    → All P rs
    → (status ≡ 404) ⊎ (status ≡ 405)
    → Chosen P method path (choose rs method path status)
unfolding choose
choose-Chosen P [] method path status all s = s
choose-Chosen P (r ∷ rs) method path status all s =
    elim (Option-cases (match_path r.pattern path)) [
      | inl n ↦
          let skips : choose (r ∷ rs) method path status ≡ choose rs method path status =
            rw n refl in
          rw skips (choose-Chosen P rs method path status all.1 s)
      | inr (ids, n) ↦ elim (Bool-cases (takes r.method method)) [
        | inl t ↦
            let takes_it : choose (r ∷ rs) method path status ≡ found r ids = rw (n, t) refl in
            rw takes_it (all.0, t, n)
        | inr t ↦
            let skips : choose (r ∷ rs) method path status ≡ choose rs method path 405 =
              rw (n, t) refl in
            rw skips (choose-Chosen P rs method path 405 all.1 (inr refl))
      ]
    ]

takes_post : (asked : Text) → takes (text "POST") asked ≡ true → asked ≡ text "POST"
unfolding ◌==◌
takes_post asked h = elim (Bool-cases (text "POST" == asked)) [
  | inl e ↦ sym ((eq_iff (text "POST") asked).0 e)
  | inr e ↦ let bad : false ≡ true = rw e at h in cc
]

-- the two requests that need no session
abbrev pub IsEntry : Request → Type 0
IsEntry r = (r.method ≡ text "POST") × ((r.path ≡ login_path) ⊎ (r.path ≡ exchange_path))

-- a session that the request's token names, in its time
abbrev pub HasSession : Request → Manager → Type 0
HasSession r m =
    (s : AdminSession) × (get (bearer_token r.authorization) m.admin_sessions ≡ some s)
    × (ltb s.expires_at (m.world.clock m.world.readings) ≡ false)

abbrev pub IsRefusal : ℕ → Type 0
IsRefusal status = (status ≡ 401) ⊎ ((status ≡ 404) ⊎ (status ≡ 405)) ⊎ (status ≡ 301)

-- the request is refused, and neither the database nor the registry is touched
abbrev pub IsTurnedAway : (Result Reply × Manager) → Manager → Type 0
IsTurnedAway (result, after) m =
    ((reply : Reply) × (result ≡ ok reply) × IsRefusal reply.status)
    × (after.db ≡ m.db)
    × (after.registry ≡ m.registry)

module _ (c : Crypto) (j : Json) (like : Text → Text → Bool) (r : Request) (m : Manager) where
  open_entry :
      (route : Route) (ids : List Text)
      → (route.method ≡ text "POST")
        × ((route.pattern ≡ map word login_path) ⊎ (route.pattern ≡ map word exchange_path))
      → takes route.method r.method ≡ true
      → match_path route.pattern r.path ≡ some ids
      → IsEntry r
  open_entry route ids (post, inl p) t n =
      (takes_post r.method (rw post at t), inl (match_path-words login_path r.path (rw p at n)))
  open_entry route ids (post, inr p) t n =
      (takes_post r.method (rw post at t), inr (match_path-words exchange_path r.path (rw p at n)))

  guarded :
      (next : Text → Exec Manager Reply)
      → HasSession r m ⊎ IsTurnedAway (require_admin r.authorization next m) m
  guarded next = elim (require_admin_guards r.authorization next m) [
    | inl (s, known, in_time, same) ↦ inl (s, known, in_time)
    | inr (e, db, registry) ↦ inr ((_, e, inl refl), db, registry)
  ]

  admitted :
      (choice : Choice)
      → Chosen IsOpen r.method r.path choice
      → IsEntry r ⊎ (HasSession r m ⊎ IsTurnedAway (chosen c j like r choice m) m)
  unfolding chosen run_route
  admitted (missing status) s = inr (inr ((_, refl, inr (inl s)), refl, refl))
  admitted (found route ids) (inl p, t, n) =
      inr (rw p (guarded (run_handler c j like r route.handler (first ids))))
  admitted (found route ids) (inr entry, t, n) = inl (open_entry route ids entry t n)

  -- A request that is neither POST /api/v1/auth/login nor POST /api/v1/enroll/exchange and whose
  -- token names no admin session in its time is refused with 301, 401, 404 or 405, and neither the
  -- database nor the registry is touched.
  pub serve_api_guards : IsEntry r ⊎ (HasSession r m ⊎ IsTurnedAway (serve_api c j like r m) m)
  unfolding serve_api
  serve_api_guards = elim (Bool-cases (is_clean r.path || r.method == text "CONNECT")) [
    | inl clean ↦ rw clean (
        admitted (choose routes r.method r.path 404)
          (choose-Chosen IsOpen routes r.method r.path 404 routes-IsOpen (inl refl)))
    | inr other ↦ rw other (inr (inr ((_, refl, inr (inr refl)), refl, refl)))
  ]
