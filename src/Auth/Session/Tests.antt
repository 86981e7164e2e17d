-- ===== src/Auth/Session/Tests.antt =====
-- Tokens at concrete input, with a coding that is plain to read: a payload is its subject with the
-- two times in unary, and the code of a text is its length in unary.
use social_monitor.Prelude.{
  ℕ, zero, suc, ◌+◌, ◌/◌, ◌≡◌, ◌≢◌, ◌∙◌, ◌++◌, is_space, length, inr, inl, refl, ap, Text, text,
  true, false, eqb, leb, [], ◌∷◌, Option, some, arith, if◌then◌else◌,
}
use social_monitor.Core.{ok, err}
use social_monitor.Splitting.{dot, is_free_of}
use social_monitor.Auth.{
  Tokens, AuthService, AuthTokenPayload, Claims, sign, login, verify, can_activate, payload_for,
  GuardRequest, logged_out, wrong_credentials,
}
use social_monitor.Auth.Session.{
  TokenLaws, claims_of, verify-sign, verify-Genuine, Genuine, login_session, Carries, has_no_space,
}

-- A number's list of code units, with 1 for each and 2 at its end.
abbrev unary : ℕ → Text → Text
unary zero rest = 2 ∷ rest
unary (suc n) rest = 1 ∷ unary n rest

abbrev unary_value : Text → ℕ
unary_value [] = 0
unary_value (x ∷ xs) = let rest = unary_value xs in if eqb x 1 then suc rest else 0

abbrev after_unary : Text → Text
after_unary [] = []
after_unary (x ∷ xs) = let rest = after_unary xs in if eqb x 1 then rest else xs

-- A text as the list of its code units in unary.
abbrev lifted : Text → Text
lifted [] = []
lifted (x ∷ xs) = unary x (lifted xs)

abbrev lowered_from : ℕ → Text → Text
lowered_from n [] = []
lowered_from n (x ∷ xs) =
    let more = lowered_from (suc n) xs in
    let rest = lowered_from 0 xs in if eqb x 1 then more else n ∷ rest

lowered_unary :
    (n k : ℕ) (rest : Text) → lowered_from n (unary k rest) ≡ (k + n) ∷ lowered_from 0 rest
lowered_unary n zero rest = let e : n ≡ 0 + n = omega arith in ap (λ m. m ∷ lowered_from 0 rest) e
lowered_unary n (suc k) rest =
    let e : k + suc n ≡ suc k + n = omega arith in
    lowered_unary (suc n) k rest ∙ ap (λ m. m ∷ lowered_from 0 rest) e

lowered-lifted : (s : Text) → lowered_from 0 (lifted s) ≡ s
lowered-lifted [] = refl
lowered-lifted (x ∷ xs) =
    let e : x + 0 ≡ x = omega arith in
    lowered_unary 0 x (lifted xs) ∙ rw (e, lowered-lifted xs) refl

unary_value_lem : (n : ℕ) (rest : Text) → unary_value (unary n rest) ≡ n
unary_value_lem zero rest = refl
unary_value_lem (suc n) rest = ap suc (unary_value_lem n rest)

after_unary_lem : (n : ℕ) (rest : Text) → after_unary (unary n rest) ≡ rest
after_unary_lem zero rest = refl
after_unary_lem (suc n) rest = after_unary_lem n rest

unary_free :
    (n : ℕ) (rest : Text) → is_free_of dot rest ≡ true → is_free_of dot (unary n rest) ≡ true
unary_free zero rest h = ground arith
unary_free (suc n) rest h = let ih = unary_free n rest h in ground arith

lifted_free : (s : Text) → is_free_of dot (lifted s) ≡ true
lifted_free [] = refl
lifted_free (x ∷ xs) = unary_free x (lifted xs) (lifted_free xs)

unary_unspaced :
    (n : ℕ) (rest : Text) → has_no_space rest ≡ true → has_no_space (unary n rest) ≡ true
unfolding is_space
unary_unspaced zero rest h = ground arith
unary_unspaced (suc n) rest h = let ih = unary_unspaced n rest h in ground arith

lifted_unspaced : (s : Text) → has_no_space (lifted s) ≡ true
lifted_unspaced [] = refl
lifted_unspaced (x ∷ xs) = unary_unspaced x (lifted xs) (lifted_unspaced xs)

abbrev written : AuthTokenPayload → Text
written p = unary p.iat (unary p.exp (lifted p.sub))

abbrev read_back : Text → Option Claims
read_back s = some (record {
  sub = some (lowered_from 0 (after_unary (after_unary s)));
  iat = some (unary_value s);
  exp = some (unary_value (after_unary s));
})

abbrev plain : Tokens
plain = record {
  hmac = λ secret s. unary (length (secret ++ s)) [];
  write = written;
  read = read_back;
  bytes = λ s. s;
}

pub read_written : (p : AuthTokenPayload) → read_back (written p) ≡ some (claims_of p)
read_written p =
    rw
      (
        after_unary_lem p.iat (unary p.exp (lifted p.sub)),
        after_unary_lem p.exp (lifted p.sub),
        unary_value_lem p.iat (unary p.exp (lifted p.sub)),
        unary_value_lem p.exp (lifted p.sub),
        lowered-lifted p.sub,
      )
      refl

pub written_free : (p : AuthTokenPayload) → is_free_of dot (written p) ≡ true
written_free p = unary_free p.iat _ (unary_free p.exp _ (lifted_free p.sub))

pub hmac_free : (secret s : Text) → is_free_of dot (plain.hmac secret s) ≡ true
hmac_free secret s = unary_free (length (secret ++ s)) [] refl

abbrev plain_laws : TokenLaws plain
plain_laws = record {
  read_write = read_written;
  write_free = written_free;
  hmac_free = hmac_free;
  write_unspaced = λ p. unary_unspaced p.iat _ (unary_unspaced p.exp _ (lifted_unspaced p.sub));
  hmac_unspaced = λ secret s. unary_unspaced (length (secret ++ s)) [] refl;
}

abbrev admin : AuthService
admin = record { username = text "admin"; password = text "pw"; secret = text "s"; ttl_seconds = 3 }

-- The token in the header, and another in the query.
abbrev with_header : GuardRequest
unfolding sign
with_header = record {
  authorization = some (text "Bearer " ++ sign plain admin admin.username 5000);
  query_token = some (text "other");
}

wrong_password : plain.bytes (text "pwd") ≢ plain.bytes admin.password
wrong_password e = ground arith

carried : Carries plain plain_laws admin (sign plain admin admin.username 5000) with_header
unfolding with_header sign
carried = inl refl

login_session_example :
    (login plain admin admin.username admin.password 5000
      ≡ ok (record { token = sign plain admin admin.username 5000; expires_in = 3 }))
    × (can_activate plain admin false with_header 7000 ≡ (
        if leb (5000 / 1000 + 3) (7000 / 1000) then err logged_out else ok (some admin.username)))
    × (login plain admin (text "admin") (text "pwd") 5000 ≡ err wrong_credentials)
login_session_example =
    login_session plain plain_laws admin 5000 7000 with_header (text "admin") (text "pwd") refl refl
      carried (inr wrong_password)

abbrev admin_payload : AuthTokenPayload
admin_payload = payload_for plain admin admin.username 5000

admin_verifies : verify plain admin (sign plain admin admin.username 5000) 7000 ≡ some admin_payload
admin_verifies = verify-sign plain plain_laws admin admin.username 5000 7000

verify-Genuine_example :
    Genuine plain plain_laws admin (sign plain admin admin.username 5000) admin_payload 7000
verify-Genuine_example =
    verify-Genuine plain plain_laws admin (sign plain admin admin.username 5000) 7000 admin_payload
      admin_verifies
