-- ===== src/Api/Dependencies/Access.antt =====
-- Who gets through.
use mathlib.Core.Path.{subst}
use security_review_ai.Prelude.{
  ℕ, ◌≡◌, ◌↔◌, ◌⊎◌, inl, inr, refl, sym, ◌∙◌, String, str_eq, eq_iff, true, Option, none, some,
  arith, is_nonempty, lower, strip, split_once, Option-cases, Bool-cases,
}
use security_review_ai.System.{System}
use security_review_ai.Domain.Auth.{User}
use security_review_ai.Persistence.Users.{get_user_by_id}
use security_review_ai.Auth.{TokenCodec, Claims, get_current_user}
use security_review_ai.Api.Dependencies.{
  resolved, http_error, current_user, extract_bearer_token, after_scheme,
}

-- what a header must carry to pass as a user: the scheme "bearer" in any case, a space, and a
-- token that decodes, now, to claims whose subject is the user's id in the table of users
pub record Bears (codec : TokenCodec) (now : ℕ) (header : String) (s : System) (u : User)
    : Type 0 where
  scheme : String
  rest : String
  claims : Claims
  parts : split_once b' ' header ≡ some (scheme, rest)
  is_bearer : lower scheme ≡ "bearer"
  is_given : is_nonempty (strip rest) ≡ true
  decodes : codec.decode now (strip rest) ≡ some claims
  is_registered : get_user_by_id claims.sub s.users ≡ some u

extract-after_scheme :
    (header : String) → extract_bearer_token (some header) ≡ after_scheme (split_once b' ' header)
unfolding extract_bearer_token split_once
extract-after_scheme String.[] = refl
extract-after_scheme (String.◌∷◌ c s) = ground arith

module _ (codec : TokenCodec) (now : ℕ) (s : System) (header : String) where
  Bears-resolved :
      (u : User) → Bears codec now header s u → current_user codec now (some header) s ≡ resolved u
  unfolding current_user get_current_user
  Bears-resolved u b =
      let scheme : str_eq (lower b.scheme) "bearer" ≡ true = eq_of b.is_bearer in
      rw (extract-after_scheme header, b.parts, scheme, b.is_given, b.decodes, b.is_registered) refl
    where
      eq_of : {t : String} → t ≡ "bearer" → str_eq t "bearer" ≡ true
      eq_of e = rw e refl

  -- the two ways in which a request can end
  answers :
      (current_user codec now (some header) s ≡ http_error 401)
      ⊎ ((v : User) × Bears codec now header s v)
  unfolding current_user get_current_user
  answers = elim (Option-cases (split_once b' ' header)) [
    | inl e ↦ inl (rw (extract-after_scheme header, e) refl)
    | inr ((scheme, rest), e) ↦ elim (Bool-cases (str_eq (lower scheme) "bearer")) [
      | inr f ↦ inl (rw (extract-after_scheme header, e, f) refl)
      | inl f ↦ elim (Bool-cases (is_nonempty (strip rest))) [
        | inr g ↦ inl (rw (extract-after_scheme header, e, f, g) refl)
        | inl g ↦ elim (Option-cases (codec.decode now (strip rest))) [
          | inl h ↦ inl (rw (extract-after_scheme header, e, f, g, h) refl)
          | inr (c, h) ↦ elim (Option-cases (get_user_by_id c.sub s.users)) [
            | inl k ↦ inl (rw (extract-after_scheme header, e, f, g, h, k) refl)
            | inr (v, k) ↦ inr (
              v,
              record {
                scheme = scheme;
                rest = rest;
                claims = c;
                parts = e;
                is_bearer = (eq_iff (lower scheme) "bearer").0 f;
                is_given = g;
                decodes = h;
                is_registered = k;
              },
            )
          ]
        ]
      ]
    ]
  ]

resolved_injective : {u v : User} → resolved u ≡ resolved v → u ≡ v
resolved_injective h = cc

-- A request with an Authorization header passes as a user exactly if the header has a scheme that
-- is "bearer" in any case, a space and a text that is not empty without its outer spaces and
-- decodes at that time to claims of which the subject is the id of this user in the table of
-- users; every request that passes as nobody gets a 401.
pub current_user_iff :
    (codec : TokenCodec) (now : ℕ) (header : String) (s : System) (u : User)
    → ((current_user codec now (some header) s ≡ resolved u) ↔ Bears codec now header s u)
      × ((current_user codec now (some header) s ≡ http_error 401)
          ⊎ ((v : User) × (current_user codec now (some header) s ≡ resolved v)))
current_user_iff codec now header s u = elim (answers codec now s header) [
  | inl refused ↦ ((λ h. absurd (cc), Bears-resolved codec now s header u), inl refused)
  | inr (v, b) ↦
      let passes = Bears-resolved codec now s header v b in
      (
        (
          λ h. subst (Bears codec now header s) (resolved_injective (sym passes ∙ h)) b,
          Bears-resolved codec now s header u,
        ),
        inr (v, passes),
      )
]

-- A request without a bearer token gets a 401, whatever the state.
pub current_user-anonymous :
    (codec : TokenCodec) (now : ℕ) (header : Option String) (s : System)
    → extract_bearer_token header ≡ none
    → current_user codec now header s ≡ http_error 401
unfolding current_user
current_user-anonymous codec now header s e = ground arith
