-- ===== src/Permissions/Granted.antt =====
-- Who gets through.
use local_voice_agent.Prelude.{
  String, ◌≡◌, refl, ap, ◌∙◌, ◌⊎◌, inl, inr, true, ◌&&◌, some, [], ◌∷◌, arith, eq_iff, Bool-cases,
  Option-cases, ◌==◌, nat_eq, string_eq, option_eq, contains, is_text,
}
use local_voice_agent.Value.{Value, null, bool, int, real, str, list, dict, Dict}
use local_voice_agent.Prelude.{blank_text, is_ascii}
use local_voice_agent.Tools.Reply.{Signing}
use local_voice_agent.Permissions.{
  HttpRequest, Site, is_kiosk_scope, valid_kiosk_cookie, safe_methods, granted, from_here,
  by_cookie, has_permission,
}

abbrev pub kiosk_scope : Dict
kiosk_scope = ("scope", str "kiosk") ∷ []

-- A signed kiosk session, and a request that changes nothing, names no origin or comes from here
abbrev pub HasSession : Site → HttpRequest → Type 0
HasSession site r =
    (site.signing.loads r.cookie ≡ some kiosk_scope)
    × ((contains r.method safe_methods ≡ true)
        ⊎ (r.origin ≡ "")
        ⊎ (site.urlsplit r.origin ≡ some (r.scheme, r.host)))

is_kiosk_scope-eq : (d : Dict) → is_kiosk_scope d ≡ true → d ≡ kiosk_scope
is_kiosk_scope-eq [] h = absurd (ground arith)
is_kiosk_scope-eq ((k, str s) ∷ []) h =
    let key : k ≡ "scope" = (eq_iff k "scope").0 (ground arith) in
    let value : s ≡ "kiosk" = (eq_iff s "kiosk").0 (ground arith) in rw (key, value) refl
is_kiosk_scope-eq ((k, null) ∷ []) h = absurd (ground arith)
is_kiosk_scope-eq ((k, bool b) ∷ []) h = absurd (ground arith)
is_kiosk_scope-eq ((k, int n) ∷ []) h = absurd (ground arith)
is_kiosk_scope-eq ((k, real t) ∷ []) h = absurd (ground arith)
is_kiosk_scope-eq ((k, list vs) ∷ []) h = absurd (ground arith)
is_kiosk_scope-eq ((k, dict fs) ∷ []) h = absurd (ground arith)
is_kiosk_scope-eq ((k, v) ∷ item ∷ rest) h = absurd (more v h)
  where
    more : (w : Value) → is_kiosk_scope ((k, w) ∷ item ∷ rest) ≡ true → ⊥
    more null e = ground arith
    more (bool b) e = ground arith
    more (int n) e = ground arith
    more (real t) e = ground arith
    more (str t) e = ground arith
    more (list vs) e = ground arith
    more (dict fs) e = ground arith

valid-scope :
    (signing : Signing) (value : String)
    → valid_kiosk_cookie signing value ≡ true
    → signing.loads value ≡ some kiosk_scope
unfolding valid_kiosk_cookie
valid-scope signing value h = elim (Bool-cases (is_text value)) [
  | inr t ↦ absurd (ground arith)
  | inl t ↦ elim (Option-cases (signing.loads value)) [
    | inl e ↦ absurd (ground arith)
    | inr (d, e) ↦ e ∙ ap some (is_kiosk_scope-eq d (ground arith))
  ]
]

module _ (site : Site) (r : HttpRequest) where
  by_cookie-HasSession : by_cookie site r ≡ granted → HasSession site r
  unfolding by_cookie from_here
  by_cookie-HasSession h = elim (Bool-cases (contains r.method safe_methods)) [
    | inl m ↦
        let h' = rw (m, by_cookie) at h in (valid-scope site.signing r.cookie (ground arith), inl m)
    | inr m ↦ elim (Bool-cases (is_text r.origin)) [
      | inr o ↦
          let h' = rw (m, by_cookie, o) at h in
          (valid-scope site.signing r.cookie (ground arith), inr (inl (blank_text r.origin o)))
      | inl o ↦ elim (Option-cases (site.urlsplit r.origin)) [
        | inl u ↦ let h' = rw (m, by_cookie, o, u) at h in absurd (ground arith)
        | inr ((scheme, netloc), u) ↦ elim (Bool-cases (scheme == r.scheme && netloc == r.host)) [
          | inr s ↦ let h' = rw (m, by_cookie, o, u, s) at h in absurd (ground arith)
          | inl s ↦
              let h' = rw (m, by_cookie, o, u, s) at h in
              let same : scheme ≡ r.scheme = (eq_iff scheme r.scheme).0 (ground arith) in
              let also : netloc ≡ r.host = (eq_iff netloc r.host).0 (ground arith) in
              (
                valid-scope site.signing r.cookie (ground arith),
                inr (inr (u ∙ rw (same, also) refl)),
              )
        ]
      ]
    ]
  ]

  -- A request is granted only with the provisioning key, which is set, or with a signed session of
  -- the kiosk; and then a request that may change something and names an origin names this host.
  pub has_permission_granted :
      has_permission site r ≡ granted
      → ((is_text site.api_key ≡ true) × (r.kiosk_key ≡ site.api_key)) ⊎ HasSession site r
  unfolding has_permission
  has_permission_granted h = elim (Bool-cases (is_text site.api_key && is_text r.kiosk_key)) [
    | inr k ↦ inr (by_cookie-HasSession (rw (k, has_permission) at h))
    | inl k ↦ elim (Bool-cases (is_ascii r.kiosk_key && is_ascii site.api_key)) [
      | inr a ↦ let h' = rw (k, has_permission, a) at h in absurd (ground arith)
      | inl a ↦ elim (Bool-cases (r.kiosk_key == site.api_key)) [
        | inl e ↦ inl (ground arith, (eq_iff r.kiosk_key site.api_key).0 e)
        | inr e ↦ inr (by_cookie-HasSession (rw (k, has_permission, a, e) at h))
      ]
    ]
  ]
