-- ===== src/Tests/Codec.antt =====
-- A token codec that keeps what it is told about PyJWT: claims as texts in unary, with an expiry.
use Prim.Native.Char.{code}
use security_review_ai.Prelude.{
  ℕ, suc, ◌≡◌, refl, String, none, some, arith, ◌==◌, ltb, leb, ◌&&◌, if◌then◌else◌,
}
use security_review_ai.Domain.Auth.{UserRole}
use security_review_ai.Persistence.Users.{get_user_by_id}
use security_review_ai.Auth.{Claims, TokenCodec, get_current_user, issue_token}
use security_review_ai.Auth.Sessions.{IsFaithful, in_seconds, if_valid, token_lifetime}
use security_review_ai.Tests.{ann, sample}

write_number : ℕ → String → String
write_number ℕ.zero rest = String.◌∷◌ "." rest
write_number (suc n) rest = String.◌∷◌ "1" (write_number n rest)

more : ℕ × String → ℕ × String
more (n, rest) = (suc n, rest)

read_number : String → ℕ × String
read_number String.[] = (0, String.[])
read_number (String.◌∷◌ c rest) = if code c == b'.' then (0, rest) else more (read_number rest)

read_number-write_number : (n : ℕ) (rest : String) → read_number (write_number n rest) ≡ (n, rest)
unfolding read_number write_number more
read_number-write_number ℕ.zero rest = refl
read_number-write_number (suc n) rest = rw (read_number-write_number n rest) refl

role_number : UserRole → ℕ
role_number UserRole.owner = 0
role_number UserRole.admin = 1
role_number UserRole.member = 2

role_of : ℕ → UserRole
role_of ℕ.zero = UserRole.owner
role_of (suc ℕ.zero) = UserRole.admin
role_of (suc (suc n)) = UserRole.member

role_of-role_number : (r : UserRole) → role_of (role_number r) ≡ r
unfolding role_of role_number
role_of-role_number UserRole.owner = refl
role_of-role_number UserRole.admin = refl
role_of-role_number UserRole.member = refl

write_claims : Claims → String
write_claims c = write_number c.sub (
    write_number c.org
      (write_number (role_number c.role) (write_number c.iat (write_number c.exp String.[]))))

read_claims : String → Claims
read_claims t =
    let (sub, t₁) = read_number t in
    let (org, t₂) = read_number t₁ in
    let (role, t₃) = read_number t₂ in
    let (iat, t₄) = read_number t₃ in
    let (exp, t₅) = read_number t₄ in
    record { sub = sub; org = org; role = role_of role; iat = iat; exp = exp }

read_claims-write_claims : (c : Claims) → read_claims (write_claims c) ≡ c
unfolding read_claims write_claims
read_claims-write_claims c =
    rw
      (
        read_number-write_number, read_number-write_number, read_number-write_number,
        read_number-write_number, read_number-write_number, role_of-role_number,
      )
      refl

unary : TokenCodec
unary = record {
  encode = λ c. write_claims (in_seconds c);
  decode =
      λ now t. let c = read_claims t in if leb c.iat now && ltb now c.exp then some c else none;
}

unary-IsFaithful : IsFaithful unary
unfolding unary
unary-IsFaithful = record {
  reads = λ c now h k. rw (read_claims-write_claims (in_seconds c)) (ground arith);
  premature = λ c now h. rw (read_claims-write_claims (in_seconds c)) (ground arith);
  expires = λ c now h. rw (read_claims-write_claims (in_seconds c)) (ground arith);
}

token_lifetime_example :
    get_current_user unary 1500010 (issue_token unary 1500005 ann).access_token sample
    ≡ (if_valid (ltb 1500010 43201000000) (get_user_by_id 1 sample.users), sample)
token_lifetime_example =
    token_lifetime unary unary-IsFaithful 1500005 1500010 ann sample (omega arith)
