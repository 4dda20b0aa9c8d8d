-- ===== src/Auth/Passwords/Hashed.antt =====
-- That a hash is verified by the password it was made of.
use aiofiles.Prelude.{
  ℕ, ◌<◌, true, false, ◌≡◌, refl, ap, ◌∙◌, [], ◌∷◌, ◌++◌, All, codes, length, some, ok, arith,
}
use aiofiles.Prelude.Bytes.{Bytes, same_codes, same_codes_refl}
use aiofiles.Prelude.Base64.{encode, decode, AllBytes, encode-All, decode-encode, letter}
use aiofiles.Prelude.Split.{split_at, other_than, split_at-run, split_at_whole, plain_text}
use aiofiles.Auth.Passwords.{
  ArgonParams, argon_params, argon_key_len, IdKey, filled, decode_parts, decode_hash, hash_password,
  compare_keys, verify_password, scan_version, scan_params, scan_int, scan_uint, skip_spaces,
  more_digits, with_key, with_params, with_version,
}

letters_plain : (s : Bytes) → AllBytes s → All (λ c. other_than b'$' c ≡ true) (encode s)
letters_plain s h = encode-All (other_than b'$') s (λ n k. unfold letter in ground arith) h

filled-some : (s : Bytes) → 0 < length s → filled (some s) ≡ some s
filled-some [] h = absurd (omega arith)
filled-some (b ∷ s) h = refl

abbrev front_text : Bytes
front_text = codes "$argon2id$v=19$m=65536,t=3,p=2$"

front-split :
    (t : Bytes)
    → split_at b'$' (front_text ++ t)
      ≡ [] ∷ codes "argon2id" ∷ codes "v=19" ∷ codes "m=65536,t=3,p=2" ∷ split_at b'$' t
front-split t =
    let params = codes "m=65536,t=3,p=2" in
    split_at-run b'$' [] (codes "argon2id$v=19$m=65536,t=3,p=2$" ++ t) tt
    ∙ ap (λ l. [] ∷ l)
        (split_at-run b'$' (codes "argon2id") (codes "v=19$m=65536,t=3,p=2$" ++ t)
          (plain_text b'$' (codes "argon2id") refl))
    ∙ ap (λ l. [] ∷ codes "argon2id" ∷ l)
        (split_at-run b'$' (codes "v=19") (params ++ b'$' ∷ t)
          (plain_text b'$' (codes "v=19") refl))
    ∙ ap (λ l. [] ∷ codes "argon2id" ∷ codes "v=19" ∷ l)
        (split_at-run b'$' params t (plain_text b'$' params refl))

version_read : scan_version (codes "v=19") ≡ some (false, 19)
unfolding scan_version scan_int skip_spaces more_digits
version_read = refl

params_read : scan_params (codes "m=65536,t=3,p=2") ≡ some argon_params
unfolding scan_params scan_uint skip_spaces more_digits
params_read = refl

-- What a hash made of a salt and a key is decoded to.
decode_hash-encode :
    (salt key : Bytes)
    → AllBytes salt × (0 < length salt)
    → AllBytes key × (0 < length key)
    → decode_hash (front_text ++ (encode salt ++ b'$' ∷ encode key)) ≡ ok (argon_params, salt, key)
unfolding decode_hash decode_parts with_version with_params
decode_hash-encode salt key (a, b) (c, d) =
    let parts =
      front-split (encode salt ++ b'$' ∷ encode key)
      ∙ ap (λ l. [] ∷ codes "argon2id" ∷ codes "v=19" ∷ codes "m=65536,t=3,p=2" ∷ l)
          (split_at-run b'$' (encode salt) (encode key) (letters_plain salt a)
            ∙ ap (λ l. encode salt ∷ l) (split_at_whole b'$' (encode key) (letters_plain key c))) in
    ap decode_parts parts
    ∙ ap (λ v. with_version v (codes "m=65536,t=3,p=2") (encode salt) (encode key)) version_read
    ∙ ap (λ p. with_params p (encode salt) (encode key)) params_read
    ∙ ap (λ o. with_key argon_params o (filled (decode (encode key))))
        (ap filled (decode-encode salt a) ∙ filled-some salt b)
    ∙ ap (λ o. with_key argon_params (some salt) o)
        (ap filled (decode-encode key c) ∙ filled-some key d)

-- If argon2 gives keys of the length that it is asked for, a password with a salt that is not empty has a hash, which
-- a password passes exactly if its key is the same, so the same password does.
pub verify_password-hash_password :
    (id_key : IdKey) (salt plain other : Bytes)
    → ((p s : Bytes) (a : ArgonParams) (n : ℕ)
        → AllBytes (id_key p s a n) × (length (id_key p s a n) ≡ n))
    → AllBytes salt × (0 < length salt)
    → (h : Bytes) × (hash_password id_key (some salt) plain ≡ some h)
      × (verify_password id_key h plain ≡ ok true)
      × (verify_password id_key h other
          ≡ ok (
              same_codes
                (id_key other salt argon_params argon_key_len)
                (id_key plain salt argon_params argon_key_len)))
unfolding hash_password verify_password
verify_password-hash_password id_key salt plain other keys good =
    let key = id_key plain salt argon_params argon_key_len in
    let (all, long) = keys plain salt argon_params argon_key_len in
    let decoded = decode_hash-encode salt key good (all, omega (arith, long)) in
    let verified : (p : Bytes)
        → verify_password id_key (front_text ++ (encode salt ++ b'$' ∷ encode key)) p
          ≡ ok (same_codes (id_key p salt argon_params argon_key_len) key) =
      λ p.
        ap (compare_keys id_key p) decoded
        ∙ ap (λ n. ok (same_codes (id_key p salt argon_params n) key)) long in
    (
      front_text ++ (encode salt ++ b'$' ∷ encode key),
      refl,
      verified plain ∙ ap ok (same_codes_refl key),
      verified other,
    )
