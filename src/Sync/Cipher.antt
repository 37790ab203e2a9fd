-- ===== src/Sync/Cipher.antt =====
-- Blobs: what is encrypted is decrypted again.
use tactile.Base.{
  ℕ, ◌≡◌, sym, ap, take-length, drop-length, ◌∙◌, List, ◌++◌, ok, length, take, drop,
}
use tactile.IdbFs.Tree.{Holds}
use tactile.Sync.{Host, encrypt, decrypt, nonce_len}

-- Where 24 random bytes are given as the nonce and the cipher opens what it sealed, a blob is made
-- and decrypts to the plaintext.
pub decrypt-encrypt :
    (host : Host) (key plaintext nonce : List ℕ) (w w' : host.World)
    → host.random_values nonce_len w ≡ (ok nonce, w')
    → length nonce ≡ 24
    → host.open_sealed key nonce (host.seal key nonce plaintext) ≡ ok plaintext
    → Holds
        (λ blob _. decrypt host key blob ≡ ok plaintext)
        (λ _ _. ⊥)
        (encrypt host key plaintext w)
unfolding encrypt decrypt
decrypt-encrypt host key plaintext nonce w w' drawn long opens =
    rw (drawn, Holds)
      (ap (λ n. host.open_sealed key n (drop 24 (nonce ++ host.seal key nonce plaintext)))
          (ap (λ n. take n (nonce ++ host.seal key nonce plaintext)) (sym long)
            ∙ take-length nonce (host.seal key nonce plaintext))
        ∙ ap (host.open_sealed key nonce) (
            ap (λ n. drop n (nonce ++ host.seal key nonce plaintext)) (sym long)
            ∙ drop-length nonce (host.seal key nonce plaintext))
        ∙ opens)
