-- ===== src/Client/Sealing.antt =====
-- zkchat/main.go, e2eSeal and e2eOpen: what is sealed for a key opens with its scalar.
use zknode_autonomi_alpha.Prelude.{
  ℕ, ◌≡◌, ◌≤◌, ◌∙◌, sym, ap, refl, false, ◌++◌, append_assoc, Bytes, ok, length, take, drop,
  replicate, ltb, arith, length-append, take-append, drop-append_past,
}
use zknode_autonomi_alpha.Client.{Machine, Crypto}
use zknode_autonomi_alpha.Client.Keys.{
  e2e_seal, e2e_open, seal_with, seal_nonce, seal_shared, open_payload, open_shared, fit,
}

-- What the primitives promise: both ends of X25519 agree on the shared secret, and its results have
-- 32 bytes; a sealed text has the 16 bytes of a tag, and opens under the same key, nonce and
-- associated data; base64 reads what it wrote.
pub record IsSound (k : Crypto) : Type 0 where
  pub agree :
      (a b pa pb s : Bytes)
      → k.x25519 a k.base_point ≡ ok pa
      → k.x25519 b k.base_point ≡ ok pb
      → k.x25519 a pb ≡ ok s
      → k.x25519 b pa ≡ ok s
  pub length_x25519 : (a b s : Bytes) → k.x25519 a b ≡ ok s → length s ≡ 32
  pub length_seal : (key nonce text ad : Bytes) → 16 ≤ length (k.seal key nonce text ad)
  pub unseal-seal :
      (key nonce text ad : Bytes) → k.unseal key nonce (k.seal key nonce text ad) ad ≡ ok text
  pub unbase64-base64 : (s : Bytes) → k.unbase64 (k.base64 s) ≡ ok s

fit_lem : (s : Bytes) → length s ≡ 32 → fit s ≡ s
unfolding fit
fit_lem s h = ap (λ n. take n (s ++ replicate 32 0)) (sym h) ∙ take-append s (replicate 32 0)

front : (n : ℕ) (s t : Bytes) → length s ≡ n → take n (s ++ t) ≡ s
front n s t h = ap (λ i. take i (s ++ t)) (sym h) ∙ take-append s t

module _ (k : Crypto) (sound : IsSound k) where
  open_payload_lem :
      (nonce eph_pub ct scalar shared : Bytes)
      → length nonce ≡ 24
      → length eph_pub ≡ 32
      → 16 ≤ length ct
      → k.x25519 scalar eph_pub ≡ ok shared
      → open_payload k scalar (nonce ++ (eph_pub ++ ct))
        ≡ k.unseal (k.sha256 shared) nonce ct eph_pub
  unfolding open_payload open_shared
  open_payload_lem nonce eph_pub ct scalar shared hn he hc s =
      let fits : ltb (length (nonce ++ (eph_pub ++ ct))) 72 ≡ false =
        ground (arith, length-append nonce (eph_pub ++ ct), length-append eph_pub ct) in
      let rest : drop 24 (nonce ++ (eph_pub ++ ct)) ≡ eph_pub ++ ct =
        drop-append_past nonce (eph_pub ++ ct) 24 (sym hn) in
      let body : drop 56 (nonce ++ (eph_pub ++ ct)) ≡ ct =
        ap (drop 56) (sym (append_assoc nonce eph_pub ct))
        ∙ drop-append_past (nonce ++ eph_pub) ct 56 (omega (arith, length-append nonce eph_pub)) in
      rw (fits, rest, body, front 24 nonce (eph_pub ++ ct) hn, front 32 eph_pub ct he, s) refl

  seal_with_lem :
      (peer text eph_priv eph_pub nonce shared : Bytes)
      → length peer ≡ 32
      → k.x25519 eph_priv peer ≡ ok shared
      → seal_with k peer text eph_priv (ok eph_pub) (ok nonce)
        ≡ ok (k.base64 (nonce ++ (eph_pub ++ k.seal (k.sha256 shared) nonce text eph_pub)))
  unfolding seal_with seal_nonce seal_shared
  seal_with_lem peer text eph_priv eph_pub nonce shared hp e = rw (fit_lem peer hp, e) refl

  -- With primitives that keep their promises, a text that is sealed for the public key of a scalar
  -- is opened by that scalar, whenever the random source, with a nonce of 24 bytes, and the key
  -- agreement give a result.
  pub e2e_open-e2e_seal :
      (m : Machine) (scalar peer text eph_priv eph_pub nonce shared : Bytes)
      → k.x25519 scalar k.base_point ≡ ok peer
      → m.ephemeral_bytes ≡ ok eph_priv
      → m.nonce_bytes ≡ ok nonce
      → length nonce ≡ 24
      → k.x25519 eph_priv k.base_point ≡ ok eph_pub
      → k.x25519 eph_priv peer ≡ ok shared
      → (sealed : Bytes) × (e2e_seal k m peer text ≡ ok sealed)
        × (e2e_open k scalar sealed ≡ ok text)
  unfolding e2e_seal e2e_open
  e2e_open-e2e_seal m scalar peer text eph_priv eph_pub nonce shared own re rn hn he hs =
      let ct = k.seal (k.sha256 shared) nonce text eph_pub in
      let payload = nonce ++ (eph_pub ++ ct) in
      (
        k.base64 payload,
        rw (re, rn, he)
            (seal_with_lem peer text eph_priv eph_pub nonce shared
              (sound.length_x25519 scalar k.base_point peer own) hs),
        rw (sound.unbase64-base64 payload, e2e_open)
            (open_payload_lem nonce eph_pub ct scalar shared hn
                (sound.length_x25519 eph_priv k.base_point eph_pub he)
                (sound.length_seal (k.sha256 shared) nonce text eph_pub)
                (sound.agree eph_priv scalar eph_pub peer shared he own hs)
              ∙ sound.unseal-seal (k.sha256 shared) nonce text eph_pub),
      )
